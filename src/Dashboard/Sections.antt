-- ===== src/Dashboard/Sections.antt =====
-- The body of `create_dashboard` of infra/grafana/dashboards/generate_dashboard.py, one function for
-- each section that an `add_row` begins, and the document that is dumped.
use nex_pulse.Base.{true, false, some, List, [], ◌∷◌}
use nex_pulse.Text.{codes}
use nex_pulse.Json.{Json, bool, int, quoted, arr, dict}
use nex_pulse.Dashboard.Board.{Board, target, ◌▸◌, append, down, add_row, empty_board}
use nex_pulse.Dashboard.Series.{create_timeseries}
use nex_pulse.Dashboard.Helpers.{create_minimal_stat, create_bar_box, create_speedometer}
use nex_pulse.Dashboard.Traffic.{latency_heatmap, aggregator_telemetry, kafka_activity}
use nex_pulse.Dashboard.Analytics.{events_breakdown, geomap}
use nex_pulse.Dashboard.Health.{vm_health}
use nex_pulse.Dashboard.Vitals.{page_loads, endpoint_traffic}
use nex_pulse.Dashboard.Performance.{page_performance}

-- "Overview & System Saturation"
unfoldable pub overview : Board → Board
overview b =
    b
    ▸ add_row (codes "Overview & System Saturation")
    ▸ append (λ b.
      create_minimal_stat b (codes "Requests")
        (codes "sum(rate(gateway_events_ingested_total[30s]))") 0 (codes "blue") (codes "reqps"))
    ▸ append (λ b.
      create_minimal_stat b (codes "Errors") (codes "sum(rate(gateway_events_rejected_total[30s]))")
        3 (codes "red") (codes "reqps"))
    ▸ append (λ b.
      create_speedometer b (codes "Gateway Load") (codes "gateway_active_connections / 1000 * 100")
        6 (codes "red") (codes "percent") 100 false)
    ▸ append (λ b.
      create_speedometer b (codes "Kafka Backpr.")
        (codes "sum(kafka_consumergroup_lag{consumergroup=\"aggregator-group\"})") 9
        (codes "orange") (codes "none") 1000 false)
    ▸ append (λ b.
      create_bar_box b (codes "Memory Util")
        (codes "redis_memory_used_bytes / (1024*1024*1024) * 100") 12 (codes "green")
        (codes "percent") 100 false)
    ▸ append (λ b.
      create_bar_box b (codes "WebSockets")
        (codes "query_websocket_connections_active / 5000 * 100") 15 (codes "blue")
        (codes "percent") 100 false)
    ▸ append (λ b.
      create_bar_box b (codes "Active Conn.") (codes "gateway_active_connections / 1000 * 100") 18
        (codes "purple") (codes "percent") 100 false)
    ▸ append (λ b.
      create_bar_box b (codes "Success Rate")
        (codes
          "100 - (100 * sum(rate(gateway_events_rejected_total[30s])) / (sum(rate(gateway_events_ingested_total[30s])) + sum(rate(gateway_events_rejected_total[30s])) + 0.001))")
        21 (codes "green") (codes "percent") 100 true)
    ▸ down 5

-- "HTTP Requests & Traffic"
unfoldable pub ingress : Board → Board
ingress b =
    b
    ▸ add_row (codes "HTTP Requests & Traffic")
    ▸ append (λ b.
      create_timeseries b (codes "HTTP Requests / Ingress")
        ((target (codes "sum(rate(gateway_events_ingested_total[10s]))") (codes "Accepted")
            (some (codes "green")))
          ∷ (target (codes "sum(rate(gateway_events_rejected_total[10s]))") (codes "Rejected")
              (some (codes "red")))
          ∷ [])
        0 8 8 (codes "reqps") 60 false (codes "line"))
    ▸ append (λ b.
      create_timeseries b (codes "Events Processing Flow")
        ((target (codes "sum(rate(gateway_events_ingested_total[10s]))") (codes "Gateway Ingress")
            (some (codes "blue")))
          ∷ (target (codes "sum(rate(aggregator_events_processed_total[10s]))")
              (codes "Aggregator Processed") (some (codes "purple")))
          ∷ [])
        8 8 8 (codes "reqps") 60 false (codes "line"))
    ▸ append (λ b.
      create_timeseries b (codes "Active Connections")
        ((target (codes "gateway_active_connections") (codes "Gateway Active Req")
            (some (codes "orange")))
          ∷ [])
        16 8 8 (codes "none") 60 false (codes "line"))
    ▸ down 8

-- "Latency & Performance"
unfoldable pub latency : Board → Board
latency b =
    b
    ▸ add_row (codes "Latency & Performance")
    ▸ append (λ b.
      create_timeseries b (codes "Latency Percentiles")
        ((target
            (codes
              "histogram_quantile(0.99, sum(rate(gateway_request_duration_seconds_bucket[30s])) by (le))")
            (codes "p99") (some (codes "red")))
          ∷ (target
              (codes
                "histogram_quantile(0.90, sum(rate(gateway_request_duration_seconds_bucket[30s])) by (le))")
              (codes "p90") (some (codes "orange")))
          ∷ (target
              (codes
                "histogram_quantile(0.50, sum(rate(gateway_request_duration_seconds_bucket[30s])) by (le))")
              (codes "p50") (some (codes "green")))
          ∷ [])
        0 12 9 (codes "s") 60 false (codes "line"))
    ▸ append latency_heatmap
    ▸ down 9

-- "Data Aggregation & Rejections"
unfoldable pub breakdown : Board → Board
breakdown b =
    b
    ▸ add_row (codes "Data Aggregation & Rejections")
    ▸ append (λ b.
      create_timeseries b (codes "Rate Limit Hits & Rejections")
        ((target (codes "sum by(reason) (rate(gateway_events_rejected_total[1m]))")
            (codes "{{reason}}") (some (codes "orange")))
          ∷ [])
        0 12 8 (codes "none") 60 false (codes "line"))
    ▸ append aggregator_telemetry
    ▸ down 8

-- "Connections & Infrastructure"
unfoldable pub infrastructure : Board → Board
infrastructure b =
    b
    ▸ add_row (codes "Connections & Infrastructure")
    ▸ append (λ b.
      create_timeseries b (codes "Redis Memory Growth")
        ((target (codes "redis_memory_used_bytes") (codes "Redis Memory") (some (codes "purple")))
          ∷ [])
        0 12 9 (codes "bytes") 80 false (codes "bars"))
    ▸ append kafka_activity
    ▸ down 7

-- "Global Operations & Activity Logs"
unfoldable pub analytics : Board → Board
analytics b =
    b
    ▸ add_row (codes "Global Operations & Activity Logs")
    ▸ append events_breakdown
    ▸ append geomap
    ▸ down 12
    ▸ append vm_health
    ▸ down 8

-- "Frontend Web Vitals & API Analytics"
unfoldable pub vitals : Board → Board
vitals b =
    b
    ▸ add_row (codes "Frontend Web Vitals & API Analytics")
    ▸ append page_loads
    ▸ append endpoint_traffic
    ▸ down 8
    ▸ append page_performance
    ▸ down 10

-- The sections in their order.
unfoldable pub all_sections : Board → Board
all_sections b = b ▸ overview ▸ ingress ▸ latency ▸ breakdown ▸ infrastructure ▸ analytics ▸ vitals

-- The dictionary that is dumped, with the panels that were appended to its list.
unfoldable pub document : List Json → Json
document panels = dict (
    ("__inputs", arr ([]))
    ∷ ("__elements", dict ([]))
    ∷ ("__requires", arr ([]))
    ∷ (
      "annotations",
      dict (
          (
            "list",
            arr (
                (dict (
                  ("builtIn", int 1)
                  ∷ (
                    "datasource",
                    dict (("type", quoted "grafana") ∷ ("uid", quoted "-- Grafana --") ∷ []),
                  )
                  ∷ ("enable", bool true)
                  ∷ ("hide", bool true)
                  ∷ ("iconColor", quoted "rgba(0, 211, 255, 1)")
                  ∷ ("name", quoted "Annotations & Alerts")
                  ∷ ("type", quoted "dashboard")
                  ∷ []))
                ∷ []),
          )
          ∷ []),
    )
    ∷ ("editable", bool true)
    ∷ ("fiscalYearStartMonth", int 0)
    ∷ ("graphTooltip", int 1)
    ∷ ("links", arr ([]))
    ∷ ("liveNow", bool false)
    ∷ ("panels", arr panels)
    ∷ ("refresh", quoted "5s")
    ∷ ("schemaVersion", int 38)
    ∷ ("style", quoted "dark")
    ∷ ("tags", arr ((quoted "nexpulse") ∷ (quoted "overview") ∷ (quoted "premium") ∷ []))
    ∷ ("templating", dict (("list", arr ([])) ∷ []))
    ∷ ("time", dict (("from", quoted "now-15m") ∷ ("to", quoted "now") ∷ []))
    ∷ ("timepicker", dict ([]))
    ∷ ("timezone", quoted "browser")
    ∷ ("title", quoted "NexPulse — Premium Overview (God Mode)")
    ∷ ("uid", quoted "e29aa1-nexpulse-e28094-overview")
    ∷ ("version", int 3)
    ∷ [])

unfoldable pub create_dashboard : Json
unfolding document
create_dashboard = document (all_sections empty_board).panels
