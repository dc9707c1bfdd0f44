-- ===== src/Dashboard/Traffic.antt =====
-- The panels of generate_dashboard.py, sections 3 to 5, that are written out in place.
use nex_pulse.Base.{◌+◌, [], ◌∷◌, length}
use nex_pulse.Json.{Json, int, quoted, arr, dict}
use nex_pulse.Dashboard.Board.{Board}

-- "Latency Heatmap"
unfoldable pub latency_heatmap : Board → Json
latency_heatmap b = dict (
    ("type", quoted "heatmap")
    ∷ ("title", quoted "Latency Heatmap")
    ∷ ("gridPos", dict (("h", int 9) ∷ ("w", int 12) ∷ ("x", int 12) ∷ ("y", int b.y_pos) ∷ []))
    ∷ ("id", int (length b.panels + 1))
    ∷ (
      "datasource",
      dict (("type", quoted "prometheus") ∷ ("uid", quoted "prometheus-nexpulse") ∷ []),
    )
    ∷ (
      "targets",
      arr (
          (dict (
            ("expr", quoted "sum(rate(gateway_request_duration_seconds_bucket[30s])) by (le)")
            ∷ ("format", quoted "heatmap")
            ∷ ("legendFormat", quoted "{{le}}")
            ∷ []))
          ∷ []),
    )
    ∷ (
      "options",
      dict (
          ("color", dict (("mode", quoted "scheme") ∷ ("scheme", quoted "Spectral") ∷ []))
          ∷ ("yAxis", dict (("unit", quoted "s") ∷ []))
          ∷ []),
    )
    ∷ [])

-- "Aggregator Telemetry & Client Subscriptions"
unfoldable pub aggregator_telemetry : Board → Json
aggregator_telemetry b = dict (
    ("type", quoted "timeseries")
    ∷ ("title", quoted "Aggregator Telemetry & Client Subscriptions")
    ∷ ("gridPos", dict (("h", int 8) ∷ ("w", int 12) ∷ ("x", int 12) ∷ ("y", int b.y_pos) ∷ []))
    ∷ ("id", int (length b.panels + 1))
    ∷ (
      "datasource",
      dict (("type", quoted "prometheus") ∷ ("uid", quoted "prometheus-nexpulse") ∷ []),
    )
    ∷ (
      "targets",
      arr (
          (dict (
            ("expr", quoted "rate(aggregator_events_processed_total[10s])")
            ∷ ("legendFormat", quoted "Processing Rate")
            ∷ ("refId", quoted "A")
            ∷ []))
          ∷ (dict (
              ("expr", quoted "query_websocket_connections_active")
              ∷ ("legendFormat", quoted "Active WebSockets")
              ∷ ("refId", quoted "B")
              ∷ []))
          ∷ []),
    )
    ∷ (
      "options",
      dict (
          (
            "legend",
            dict (
                ("displayMode", quoted "table")
                ∷ ("placement", quoted "bottom")
                ∷ ("calcs", arr ((quoted "mean") ∷ (quoted "max") ∷ (quoted "lastNotNull") ∷ []))
                ∷ []),
          )
          ∷ ("tooltip", dict (("mode", quoted "multi") ∷ []))
          ∷ []),
    )
    ∷ (
      "fieldConfig",
      dict (
          (
            "defaults",
            dict (
                (
                  "custom",
                  dict (
                      ("drawStyle", quoted "line")
                      ∷ ("lineInterpolation", quoted "stepBefore")
                      ∷ ("lineWidth", int 2)
                      ∷ ("fillOpacity", int 15)
                      ∷ ("gradientMode", quoted "hue")
                      ∷ ("showPoints", quoted "auto")
                      ∷ ("pointSize", int 4)
                      ∷ []),
                )
                ∷ ("color", dict (("mode", quoted "palette-classic") ∷ []))
                ∷ ("unit", quoted "reqps")
                ∷ []),
          )
          ∷ (
            "overrides",
            arr (
                (dict (
                  (
                    "matcher",
                    dict (("id", quoted "byName") ∷ ("options", quoted "Active WebSockets") ∷ []),
                  )
                  ∷ (
                    "properties",
                    arr (
                        (dict
                          (("id", quoted "custom.axisPlacement") ∷ ("value", quoted "right") ∷ []))
                        ∷ (dict (("id", quoted "custom.drawStyle") ∷ ("value", quoted "line") ∷ []))
                        ∷ (dict (
                            ("id", quoted "custom.lineInterpolation")
                            ∷ ("value", quoted "smooth")
                            ∷ []))
                        ∷ (dict (("id", quoted "custom.lineWidth") ∷ ("value", int 3) ∷ []))
                        ∷ (dict (("id", quoted "custom.fillOpacity") ∷ ("value", int 10) ∷ []))
                        ∷ (dict (
                            ("id", quoted "custom.gradientMode")
                            ∷ ("value", quoted "opacity")
                            ∷ []))
                        ∷ (dict (("id", quoted "unit") ∷ ("value", quoted "none") ∷ []))
                        ∷ (dict (
                            ("id", quoted "color")
                            ∷ (
                              "value",
                              dict (
                                  ("fixedColor", quoted "#3274D9") ∷ ("mode", quoted "fixed") ∷ []),
                            )
                            ∷ []))
                        ∷ []),
                  )
                  ∷ []))
                ∷ []),
          )
          ∷ []),
    )
    ∷ [])

-- "Distributed Kafka Pipeline Activity"
unfoldable pub kafka_activity : Board → Json
kafka_activity b = dict (
    ("type", quoted "timeseries")
    ∷ ("title", quoted "Distributed Kafka Pipeline Activity")
    ∷ ("gridPos", dict (("h", int 9) ∷ ("w", int 12) ∷ ("x", int 12) ∷ ("y", int b.y_pos) ∷ []))
    ∷ ("id", int (length b.panels + 1))
    ∷ (
      "datasource",
      dict (("type", quoted "prometheus") ∷ ("uid", quoted "prometheus-nexpulse") ∷ []),
    )
    ∷ (
      "targets",
      arr (
          (dict (
            ("expr", quoted "sum(rate(kafka_topic_partition_current_offset[10s]))")
            ∷ ("legendFormat", quoted "Messages Produced/sec")
            ∷ ("refId", quoted "A")
            ∷ []))
          ∷ (dict (
              ("expr", quoted "sum(kafka_consumergroup_lag{consumergroup=\"aggregator-group\"})")
              ∷ ("legendFormat", quoted "Consumer Lag")
              ∷ ("refId", quoted "B")
              ∷ []))
          ∷ []),
    )
    ∷ (
      "options",
      dict (
          (
            "legend",
            dict (
                ("displayMode", quoted "table")
                ∷ ("placement", quoted "bottom")
                ∷ ("calcs", arr ((quoted "max") ∷ (quoted "lastNotNull") ∷ []))
                ∷ []),
          )
          ∷ ("tooltip", dict (("mode", quoted "multi") ∷ []))
          ∷ []),
    )
    ∷ (
      "fieldConfig",
      dict (
          (
            "defaults",
            dict (
                (
                  "custom",
                  dict (
                      ("drawStyle", quoted "bars")
                      ∷ ("lineWidth", int 1)
                      ∷ ("fillOpacity", int 80)
                      ∷ ("gradientMode", quoted "opacity")
                      ∷ []),
                )
                ∷ ("color", dict (("mode", quoted "palette-classic") ∷ []))
                ∷ []),
          )
          ∷ (
            "overrides",
            arr (
                (dict (
                  (
                    "matcher",
                    dict (("id", quoted "byName") ∷ ("options", quoted "Consumer Lag") ∷ []),
                  )
                  ∷ (
                    "properties",
                    arr (
                        (dict
                          (("id", quoted "custom.axisPlacement") ∷ ("value", quoted "right") ∷ []))
                        ∷ (dict (("id", quoted "custom.drawStyle") ∷ ("value", quoted "line") ∷ []))
                        ∷ (dict (("id", quoted "custom.lineWidth") ∷ ("value", int 4) ∷ []))
                        ∷ (dict (
                            ("id", quoted "custom.lineInterpolation")
                            ∷ ("value", quoted "linear")
                            ∷ []))
                        ∷ (dict (("id", quoted "custom.fillOpacity") ∷ ("value", int 20) ∷ []))
                        ∷ (dict (
                            ("id", quoted "color")
                            ∷ (
                              "value",
                              dict (("fixedColor", quoted "red") ∷ ("mode", quoted "fixed") ∷ []),
                            )
                            ∷ []))
                        ∷ []),
                  )
                  ∷ []))
                ∷ (dict (
                    (
                      "matcher",
                      dict (
                          ("id", quoted "byName")
                          ∷ ("options", quoted "Messages Produced/sec")
                          ∷ []),
                    )
                    ∷ (
                      "properties",
                      arr (
                          (dict (
                            ("id", quoted "color")
                            ∷ (
                              "value",
                              dict (
                                  ("fixedColor", quoted "dark-orange")
                                  ∷ ("mode", quoted "fixed")
                                  ∷ []),
                            )
                            ∷ []))
                          ∷ []),
                    )
                    ∷ []))
                ∷ []),
          )
          ∷ []),
    )
    ∷ [])
