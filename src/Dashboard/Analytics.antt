-- ===== src/Dashboard/Analytics.antt =====
-- The panels of generate_dashboard.py, section 6, that are written out in place.
use nex_pulse.Base.{◌+◌, true, false, [], ◌∷◌, length}
use nex_pulse.Json.{Json, bool, int, float, str, quoted, arr, dict}
use nex_pulse.Dashboard.Board.{Board}
use nex_pulse.Dashboard.Geomap.{geomap_expr}

-- "Pipeline Events Breakdown (Stacked)"
unfoldable pub events_breakdown : Board → Json
events_breakdown b = dict (
    ("type", quoted "barchart")
    ∷ ("title", quoted "Pipeline Events Breakdown (Stacked)")
    ∷ ("gridPos", dict (("h", int 12) ∷ ("w", int 12) ∷ ("x", int 0) ∷ ("y", int b.y_pos) ∷ []))
    ∷ ("id", int (length b.panels + 1))
    ∷ (
      "datasource",
      dict (("type", quoted "prometheus") ∷ ("uid", quoted "prometheus-nexpulse") ∷ []),
    )
    ∷ (
      "targets",
      arr (
          (dict (
            ("expr", quoted "sum(rate(gateway_events_ingested_total[10s]))")
            ∷ ("legendFormat", quoted "Processed")
            ∷ []))
          ∷ (dict (
              ("expr", quoted "sum(rate(gateway_events_rejected_total[10s]))")
              ∷ ("legendFormat", quoted "Dropped")
              ∷ []))
          ∷ (dict (
              ("expr", quoted "gateway_active_connections / 2")
              ∷ ("legendFormat", quoted "Pending")
              ∷ []))
          ∷ []),
    )
    ∷ (
      "options",
      dict (
          ("legend", dict (("displayMode", quoted "list") ∷ ("placement", quoted "bottom") ∷ []))
          ∷ ("stacking", quoted "normal")
          ∷ ("tooltip", dict (("mode", quoted "multi") ∷ []))
          ∷ []),
    )
    ∷ (
      "fieldConfig",
      dict (
          (
            "defaults",
            dict (
                ("color", dict (("mode", quoted "palette-classic") ∷ []))
                ∷ ("custom", dict (("fillOpacity", int 80) ∷ ("lineWidth", int 1) ∷ []))
                ∷ []),
          )
          ∷ []),
    )
    ∷ [])

-- "Live Activities Over The World"
unfoldable pub geomap : Board → Json
geomap b = dict (
    ("type", quoted "geomap")
    ∷ ("title", quoted "Live Activities Over The World")
    ∷ ("gridPos", dict (("h", int 12) ∷ ("w", int 12) ∷ ("x", int 12) ∷ ("y", int b.y_pos) ∷ []))
    ∷ ("id", int (length b.panels + 1))
    ∷ (
      "datasource",
      dict (("type", quoted "prometheus") ∷ ("uid", quoted "prometheus-nexpulse") ∷ []),
    )
    ∷ (
      "targets",
      arr (
          (dict (
            ("expr", str geomap_expr)
            ∷ ("format", quoted "table")
            ∷ ("instant", bool true)
            ∷ ("refId", quoted "A")
            ∷ []))
          ∷ []),
    )
    ∷ (
      "options",
      dict (
          (
            "basemap",
            dict (
                ("config", dict ([])) ∷ ("name", quoted "Layer 0") ∷ ("type", quoted "carto") ∷ []),
          )
          ∷ (
            "controls",
            dict (
                ("mouseWheelZoom", bool true)
                ∷ ("showAttribution", bool true)
                ∷ ("showDebug", bool false)
                ∷ ("showScale", bool false)
                ∷ ("showZoom", bool true)
                ∷ []),
          )
          ∷ (
            "layers",
            arr (
                (dict (
                  (
                    "config",
                    dict (
                        ("showLegend", bool true)
                        ∷ (
                          "style",
                          dict (
                              ("color", dict (("fixed", quoted "dark-red") ∷ []))
                              ∷ ("opacity", float 6 1)
                              ∷ (
                                "size",
                                dict (
                                    ("field", quoted "Value")
                                    ∷ ("fixed", int 10)
                                    ∷ ("max", int 25)
                                    ∷ ("min", int 5)
                                    ∷ []),
                              )
                              ∷ []),
                        )
                        ∷ []),
                  )
                  ∷ ("location", dict (("mode", quoted "auto") ∷ []))
                  ∷ ("name", quoted "Markers")
                  ∷ ("type", quoted "markers")
                  ∷ []))
                ∷ []),
          )
          ∷ (
            "view",
            dict (("id", quoted "zero") ∷ ("lat", int 20) ∷ ("lon", int 0) ∷ ("zoom", int 1) ∷ []),
          )
          ∷ []),
    )
    ∷ [])
