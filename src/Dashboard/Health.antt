-- ===== src/Dashboard/Health.antt =====
-- The table of services of generate_dashboard.py, section 6.
use nex_pulse.Base.{◌+◌, true, false, [], ◌∷◌, length}
use nex_pulse.Text.{Text, codes}
use nex_pulse.Json.{Json, null, bool, int, float, str, quoted, arr, dict}
use nex_pulse.Dashboard.Board.{Board}

unfoldable pub status_q : Text
status_q =
    codes
      "label_replace(vector(1), \"node\", \"gateway-01\", \"\", \"\") or label_replace(vector(1), \"node\", \"aggregator-01\", \"\", \"\") or label_replace(vector(0), \"node\", \"anomaly-01\", \"\", \"\") or label_replace(vector(1), \"node\", \"query-01\", \"\", \"\")"

unfoldable pub cpu_q : Text
cpu_q =
    codes
      "label_replace(vector(15), \"node\", \"gateway-01\", \"\", \"\") or label_replace(vector(87), \"node\", \"aggregator-01\", \"\", \"\") or label_replace(vector(54), \"node\", \"anomaly-01\", \"\", \"\") or label_replace(vector(4), \"node\", \"query-01\", \"\", \"\")"

unfoldable pub mem_q : Text
mem_q =
    codes
      "label_replace(vector(0.32), \"node\", \"gateway-01\", \"\", \"\") or label_replace(vector(0.85), \"node\", \"aggregator-01\", \"\", \"\") or label_replace(vector(0.52), \"node\", \"anomaly-01\", \"\", \"\") or label_replace(vector(0.12), \"node\", \"query-01\", \"\", \"\")"

-- "Microservices VM Health (Pool)"
unfoldable pub vm_health : Board → Json
vm_health b = dict (
    ("type", quoted "table")
    ∷ ("title", quoted "Microservices VM Health (Pool)")
    ∷ ("gridPos", dict (("h", int 8) ∷ ("w", int 24) ∷ ("x", int 0) ∷ ("y", int b.y_pos) ∷ []))
    ∷ ("id", int (length b.panels + 1))
    ∷ (
      "datasource",
      dict (("type", quoted "prometheus") ∷ ("uid", quoted "prometheus-nexpulse") ∷ []),
    )
    ∷ (
      "targets",
      arr (
          (dict (
            ("expr", str status_q)
            ∷ ("format", quoted "table")
            ∷ ("instant", bool true)
            ∷ ("refId", quoted "status")
            ∷ []))
          ∷ (dict (
              ("expr", str mem_q)
              ∷ ("format", quoted "table")
              ∷ ("instant", bool true)
              ∷ ("refId", quoted "memory_use")
              ∷ []))
          ∷ (dict (
              ("expr", str cpu_q)
              ∷ ("format", quoted "table")
              ∷ ("instant", bool true)
              ∷ ("refId", quoted "cpu_load")
              ∷ []))
          ∷ []),
    )
    ∷ (
      "transformations",
      arr (
          (dict (
            ("id", quoted "seriesToColumns")
            ∷ ("options", dict (("byField", quoted "node") ∷ []))
            ∷ []))
          ∷ (dict (
              ("id", quoted "organize")
              ∷ (
                "options",
                dict (
                    ("excludeByName", dict (("Time", bool true) ∷ []))
                    ∷ (
                      "renameByName",
                      dict (
                          ("node", quoted "addr")
                          ∷ ("Value #status", quoted "ssh_status")
                          ∷ ("Value #memory_use", quoted "memory_use(%)")
                          ∷ ("Value #cpu_load", quoted "cpu_load_avg")
                          ∷ []),
                    )
                    ∷ []),
              )
              ∷ []))
          ∷ []),
    )
    ∷ (
      "options",
      dict (
          ("showHeader", bool true)
          ∷ (
            "sortBy",
            arr ((dict (("displayName", quoted "addr") ∷ ("desc", bool false) ∷ [])) ∷ []),
          )
          ∷ []),
    )
    ∷ (
      "fieldConfig",
      dict (
          (
            "defaults",
            dict (
                ("color", dict (("mode", quoted "thresholds") ∷ []))
                ∷ ("custom", dict (("align", quoted "auto") ∷ ("displayMode", quoted "auto") ∷ []))
                ∷ []),
          )
          ∷ (
            "overrides",
            arr (
                (dict (
                  (
                    "matcher",
                    dict (("id", quoted "byName") ∷ ("options", quoted "ssh_status") ∷ []),
                  )
                  ∷ (
                    "properties",
                    arr (
                        (dict (
                          ("id", quoted "mappings")
                          ∷ (
                            "value",
                            arr (
                                (dict (
                                  ("type", quoted "value")
                                  ∷ (
                                    "options",
                                    dict (
                                        (
                                          "1",
                                          dict (
                                              ("text", quoted "✅")
                                              ∷ ("color", quoted "green")
                                              ∷ []),
                                        )
                                        ∷ (
                                          "0",
                                          dict
                                              (("text", quoted "❌") ∷ ("color", quoted "red") ∷ []),
                                        )
                                        ∷ []),
                                  )
                                  ∷ []))
                                ∷ []),
                          )
                          ∷ []))
                        ∷ (dict (("id", quoted "custom.align") ∷ ("value", quoted "center") ∷ []))
                        ∷ []),
                  )
                  ∷ []))
                ∷ (dict (
                    (
                      "matcher",
                      dict (("id", quoted "byName") ∷ ("options", quoted "memory_use(%)") ∷ []),
                    )
                    ∷ (
                      "properties",
                      arr (
                          (dict (
                            ("id", quoted "custom.displayMode")
                            ∷ ("value", quoted "lcd-gauge")
                            ∷ []))
                          ∷ (dict (("id", quoted "min") ∷ ("value", int 0) ∷ []))
                          ∷ (dict (("id", quoted "max") ∷ ("value", int 1) ∷ []))
                          ∷ (dict (("id", quoted "unit") ∷ ("value", quoted "percentunit") ∷ []))
                          ∷ (dict (
                              ("id", quoted "thresholds")
                              ∷ (
                                "value",
                                dict (
                                    ("mode", quoted "absolute")
                                    ∷ (
                                      "steps",
                                      arr (
                                          (dict (("color", quoted "green") ∷ ("value", null) ∷ []))
                                          ∷ (dict
                                              (("color", quoted "red") ∷ ("value", float 8 1) ∷ []))
                                          ∷ []),
                                    )
                                    ∷ []),
                              )
                              ∷ []))
                          ∷ []),
                    )
                    ∷ []))
                ∷ (dict (
                    (
                      "matcher",
                      dict (("id", quoted "byName") ∷ ("options", quoted "cpu_load_avg") ∷ []),
                    )
                    ∷ (
                      "properties",
                      arr (
                          (dict (
                            ("id", quoted "custom.displayMode")
                            ∷ ("value", quoted "color-background-solid")
                            ∷ []))
                          ∷ (dict (("id", quoted "min") ∷ ("value", int 0) ∷ []))
                          ∷ (dict (("id", quoted "max") ∷ ("value", int 100) ∷ []))
                          ∷ (dict (("id", quoted "unit") ∷ ("value", quoted "percent") ∷ []))
                          ∷ (dict (
                              ("id", quoted "thresholds")
                              ∷ (
                                "value",
                                dict (
                                    ("mode", quoted "absolute")
                                    ∷ (
                                      "steps",
                                      arr (
                                          (dict (("color", quoted "green") ∷ ("value", null) ∷ []))
                                          ∷ (dict
                                              (("color", quoted "orange") ∷ ("value", int 50) ∷ []))
                                          ∷ (dict
                                              (("color", quoted "red") ∷ ("value", int 80) ∷ []))
                                          ∷ []),
                                    )
                                    ∷ []),
                              )
                              ∷ []))
                          ∷ []),
                    )
                    ∷ []))
                ∷ []),
          )
          ∷ []),
    )
    ∷ [])
