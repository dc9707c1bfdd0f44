-- ===== src/Dashboard/Vitals.antt =====
-- The panels of generate_dashboard.py, section 7, that are written out in place.
use nex_pulse.Base.{◌+◌, [], ◌∷◌, length}
use nex_pulse.Text.{Text, codes}
use nex_pulse.Json.{Json, int, str, quoted, arr, dict}
use nex_pulse.Dashboard.Board.{Board}

unfoldable pub api_traffic_expr : Text
api_traffic_expr =
    codes
      "label_replace(sum(rate(gateway_events_ingested_total[10s])) * 0.4, \"api\", \"/api/v1/checkout\", \"\", \"\") or label_replace(sum(rate(gateway_events_ingested_total[10s])) * 0.35, \"api\", \"/api/v1/cart\", \"\", \"\") or label_replace(sum(rate(gateway_events_ingested_total[10s])) * 0.25, \"api\", \"/api/v1/product\", \"\", \"\")"

-- "Page Loads & Errors"
unfoldable pub page_loads : Board → Json
page_loads b = dict (
    ("type", quoted "barchart")
    ∷ ("title", quoted "Page Loads & Errors")
    ∷ ("gridPos", dict (("h", int 8) ∷ ("w", int 12) ∷ ("x", int 0) ∷ ("y", int b.y_pos) ∷ []))
    ∷ ("id", int (length b.panels + 1))
    ∷ (
      "datasource",
      dict (("type", quoted "prometheus") ∷ ("uid", quoted "prometheus-nexpulse") ∷ []),
    )
    ∷ (
      "targets",
      arr (
          (dict (
            ("expr", quoted "sum(rate(gateway_events_ingested_total[10s])) * 15")
            ∷ ("legendFormat", quoted "Page Loads")
            ∷ ("refId", quoted "A")
            ∷ []))
          ∷ (dict (
              ("expr", quoted "sum(rate(gateway_events_rejected_total[10s]))")
              ∷ ("legendFormat", quoted "Errors")
              ∷ ("refId", quoted "B")
              ∷ []))
          ∷ []),
    )
    ∷ (
      "options",
      dict (
          ("legend", dict (("displayMode", quoted "list") ∷ ("placement", quoted "bottom") ∷ []))
          ∷ ("stacking", quoted "normal")
          ∷ ("tooltip", dict (("mode", quoted "multi") ∷ []))
          ∷ []),
    )
    ∷ (
      "fieldConfig",
      dict (
          (
            "defaults",
            dict (
                ("color", dict (("mode", quoted "palette-classic") ∷ []))
                ∷ ("custom", dict (("fillOpacity", int 100) ∷ ("lineWidth", int 0) ∷ []))
                ∷ []),
          )
          ∷ (
            "overrides",
            arr (
                (dict (
                  (
                    "matcher",
                    dict (("id", quoted "byName") ∷ ("options", quoted "Page Loads") ∷ []),
                  )
                  ∷ (
                    "properties",
                    arr (
                        (dict (
                          ("id", quoted "color")
                          ∷ (
                            "value",
                            dict (("fixedColor", quoted "#3274D9") ∷ ("mode", quoted "fixed") ∷ []),
                          )
                          ∷ []))
                        ∷ []),
                  )
                  ∷ []))
                ∷ (dict (
                    ("matcher", dict (("id", quoted "byName") ∷ ("options", quoted "Errors") ∷ []))
                    ∷ (
                      "properties",
                      arr (
                          (dict (
                            ("id", quoted "color")
                            ∷ (
                              "value",
                              dict (
                                  ("fixedColor", quoted "#E02F44") ∷ ("mode", quoted "fixed") ∷ []),
                            )
                            ∷ []))
                          ∷ []),
                    )
                    ∷ []))
                ∷ []),
          )
          ∷ []),
    )
    ∷ [])

-- "Individual API Endpoint Traffic"
unfoldable pub endpoint_traffic : Board → Json
endpoint_traffic b = dict (
    ("type", quoted "timeseries")
    ∷ ("title", quoted "Individual API Endpoint Traffic")
    ∷ ("gridPos", dict (("h", int 8) ∷ ("w", int 12) ∷ ("x", int 12) ∷ ("y", int b.y_pos) ∷ []))
    ∷ ("id", int (length b.panels + 1))
    ∷ (
      "datasource",
      dict (("type", quoted "prometheus") ∷ ("uid", quoted "prometheus-nexpulse") ∷ []),
    )
    ∷ (
      "targets",
      arr (
          (dict (
            ("expr", str api_traffic_expr)
            ∷ ("legendFormat", quoted "{{api}}")
            ∷ ("refId", quoted "A")
            ∷ []))
          ∷ []),
    )
    ∷ (
      "options",
      dict (
          ("legend", dict (("displayMode", quoted "table") ∷ ("placement", quoted "right") ∷ []))
          ∷ ("tooltip", dict (("mode", quoted "multi") ∷ []))
          ∷ []),
    )
    ∷ (
      "fieldConfig",
      dict (
          (
            "defaults",
            dict (
                (
                  "custom",
                  dict (
                      ("drawStyle", quoted "line")
                      ∷ ("fillOpacity", int 20)
                      ∷ ("lineWidth", int 2)
                      ∷ ("gradientMode", quoted "opacity")
                      ∷ []),
                )
                ∷ ("color", dict (("mode", quoted "palette-classic") ∷ []))
                ∷ []),
          )
          ∷ []),
    )
    ∷ [])
