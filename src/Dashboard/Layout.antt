-- ===== src/Dashboard/Layout.antt =====
-- The rectangles of each section of the generated dashboard, as `gridPos` gives them.
use mathlib.Core.List.{map-append}
use nex_pulse.Base.{ℕ, ◌+◌, ◌≡◌, refl, List, [], ◌∷◌, ◌++◌, map, some, append_assoc}
use nex_pulse.Json.{dict}
use nex_pulse.Dashboard.Board.{Board, append, down, add_row}
use nex_pulse.Dashboard.Grid.{Rect, rect, grid}
use nex_pulse.Dashboard.Helpers.{create_minimal_stat, create_bar_box, create_speedometer}
use nex_pulse.Dashboard.Series.{create_timeseries}
use nex_pulse.Dashboard.Traffic.{latency_heatmap, aggregator_telemetry, kafka_activity}
use nex_pulse.Dashboard.Analytics.{events_breakdown, geomap}
use nex_pulse.Dashboard.Health.{vm_health}
use nex_pulse.Dashboard.Vitals.{page_loads, endpoint_traffic}
use nex_pulse.Dashboard.Performance.{page_performance}
use nex_pulse.Dashboard.Sections.{
  overview, ingress, latency, breakdown, infrastructure, analytics, vitals,
}

abbrev pub overview_rects : ℕ → List Rect
overview_rects y =
    rect 0 y 24 1
    ∷ rect 0 (y + 1) 3 5
    ∷ rect 3 (y + 1) 3 5
    ∷ rect 6 (y + 1) 3 5
    ∷ rect 9 (y + 1) 3 5
    ∷ rect 12 (y + 1) 3 5
    ∷ rect 15 (y + 1) 3 5
    ∷ rect 18 (y + 1) 3 5
    ∷ rect 21 (y + 1) 3 5
    ∷ []

pub grid-overview : (b : Board) → grid (overview b) ≡ grid b ++ map some (overview_rects b.y_pos)
unfolding overview grid append down add_row create_minimal_stat create_bar_box create_speedometer
    dict
grid-overview b = simp (map-append, append_assoc)

pub y_pos-overview : (b : Board) → (overview b).y_pos ≡ b.y_pos + 1 + 5
unfolding overview append down add_row
y_pos-overview b = refl

abbrev pub ingress_rects : ℕ → List Rect
ingress_rects y = rect 0 y 24 1 ∷ rect 0 (y + 1) 8 8 ∷ rect 8 (y + 1) 8 8 ∷ rect 16 (y + 1) 8 8 ∷ []

pub grid-ingress : (b : Board) → grid (ingress b) ≡ grid b ++ map some (ingress_rects b.y_pos)
unfolding ingress grid append down add_row create_timeseries dict
grid-ingress b = simp (map-append, append_assoc)

pub y_pos-ingress : (b : Board) → (ingress b).y_pos ≡ b.y_pos + 1 + 8
unfolding ingress append down add_row
y_pos-ingress b = refl

abbrev pub latency_rects : ℕ → List Rect
latency_rects y = rect 0 y 24 1 ∷ rect 0 (y + 1) 12 9 ∷ rect 12 (y + 1) 12 9 ∷ []

pub grid-latency : (b : Board) → grid (latency b) ≡ grid b ++ map some (latency_rects b.y_pos)
unfolding latency grid append down add_row create_timeseries latency_heatmap dict
grid-latency b = simp (map-append, append_assoc)

pub y_pos-latency : (b : Board) → (latency b).y_pos ≡ b.y_pos + 1 + 9
unfolding latency append down add_row
y_pos-latency b = refl

abbrev pub breakdown_rects : ℕ → List Rect
breakdown_rects y = rect 0 y 24 1 ∷ rect 0 (y + 1) 12 8 ∷ rect 12 (y + 1) 12 8 ∷ []

pub grid-breakdown : (b : Board) → grid (breakdown b) ≡ grid b ++ map some (breakdown_rects b.y_pos)
unfolding breakdown grid append down add_row create_timeseries aggregator_telemetry dict
grid-breakdown b = simp (map-append, append_assoc)

pub y_pos-breakdown : (b : Board) → (breakdown b).y_pos ≡ b.y_pos + 1 + 8
unfolding breakdown append down add_row
y_pos-breakdown b = refl

abbrev pub infrastructure_rects : ℕ → List Rect
infrastructure_rects y = rect 0 y 24 1 ∷ rect 0 (y + 1) 12 9 ∷ rect 12 (y + 1) 12 9 ∷ []

pub grid-infrastructure :
    (b : Board) → grid (infrastructure b) ≡ grid b ++ map some (infrastructure_rects b.y_pos)
unfolding infrastructure grid append down add_row create_timeseries kafka_activity dict
grid-infrastructure b = simp (map-append, append_assoc)

pub y_pos-infrastructure : (b : Board) → (infrastructure b).y_pos ≡ b.y_pos + 1 + 7
unfolding infrastructure append down add_row
y_pos-infrastructure b = refl

abbrev pub analytics_rects : ℕ → List Rect
analytics_rects y =
    rect 0 y 24 1 ∷ rect 0 (y + 1) 12 12 ∷ rect 12 (y + 1) 12 12 ∷ rect 0 (y + 1 + 12) 24 8 ∷ []

pub grid-analytics : (b : Board) → grid (analytics b) ≡ grid b ++ map some (analytics_rects b.y_pos)
unfolding analytics grid append down add_row events_breakdown geomap vm_health dict
grid-analytics b = simp (map-append, append_assoc)

pub y_pos-analytics : (b : Board) → (analytics b).y_pos ≡ b.y_pos + 1 + 12 + 8
unfolding analytics append down add_row
y_pos-analytics b = refl

abbrev pub vitals_rects : ℕ → List Rect
vitals_rects y =
    rect 0 y 24 1 ∷ rect 0 (y + 1) 12 8 ∷ rect 12 (y + 1) 12 8 ∷ rect 0 (y + 1 + 8) 24 10 ∷ []

pub grid-vitals : (b : Board) → grid (vitals b) ≡ grid b ++ map some (vitals_rects b.y_pos)
unfolding vitals grid append down add_row page_loads endpoint_traffic page_performance dict
grid-vitals b = simp (map-append, append_assoc)

pub y_pos-vitals : (b : Board) → (vitals b).y_pos ≡ b.y_pos + 1 + 8 + 10
unfolding vitals append down add_row
y_pos-vitals b = refl
