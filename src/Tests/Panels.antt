-- ===== src/Tests/Panels.antt =====
-- The generator of the dashboard.
use nex_pulse.Base.{
  ◌≤◌, ◌+◌, ◌++◌, ◌≡◌, refl, true, false, some, none, List, [], ◌∷◌, length, map, arith, All,
  Distinct,
}
use nex_pulse.Text.{codes}
use nex_pulse.Text.Decimal.{decimal}
use nex_pulse.Json.{Json, str, arr, get}
use nex_pulse.PopulateMap.{expr_of}
use nex_pulse.PopulateMap.Cities.{cities}
use nex_pulse.Dashboard.Geomap.{geomap_expr}
use nex_pulse.Dashboard.Board.{Board, Target, target, empty_board, append, down, add_row}
use nex_pulse.Dashboard.Grid.{Rect, rect, grid, Between, Disjoint, Apart, IsStacked}
use nex_pulse.Dashboard.Sections.{
  overview, ingress, latency, breakdown, infrastructure, analytics, vitals, all_sections,
}
use nex_pulse.Dashboard.Stacking.{sections-IsStacked, infrastructure-overlaps}
use nex_pulse.Dashboard.Numbers.{IsNumbered, ids, all_sections-Distinct}
use nex_pulse.Dashboard.Series.{create_timeseries}
use nex_pulse.Dashboard.Helpers.{create_bar_box, create_speedometer}
use nex_pulse.Dashboard.Queries.{
  colored, reading, painted, get_in, refs, queries_of, IsLetter, overrides-create_timeseries,
  queries-create_timeseries,
}
use nex_pulse.Dashboard.Thresholds.{shown, expected, shown-expected}

-- The expression in the generator is the one that populate_map.py would write now.
geomap_expr_current : expr_of cities ≡ geomap_expr
unfolding expr_of cities geomap_expr decimal codes
geomap_expr_current = refl

empty-IsStacked : IsStacked empty_board
unfolding grid
empty-IsStacked = record { rects = []; places = refl; inside = tt; apart = tt }

sections-IsStacked_example :
    IsStacked (overview empty_board)
    × IsStacked (ingress empty_board)
    × IsStacked (latency empty_board)
    × IsStacked (breakdown empty_board)
    × IsStacked (analytics empty_board)
    × IsStacked (vitals empty_board)
sections-IsStacked_example = sections-IsStacked empty_board empty-IsStacked

abbrev started : Board
started = overview empty_board

infrastructure-overlaps_example :
    (left : Rect) × (right : Rect) × (row : Rect) × (grid
        (add_row (codes "Next") (infrastructure started))
      ≡ grid started ++ map some (rect 0 started.y_pos 24 1 ∷ left ∷ right ∷ row ∷ []))
    × Apart (rect 0 started.y_pos 24 1 ∷ left ∷ right ∷ [])
    × All (Between started.y_pos (row.y + 2)) (left ∷ right ∷ row ∷ [])
    × (¬ Disjoint left row)
    × (¬ Disjoint right row)
    × (row.y + 2 ≡ left.y + left.h)
    × (row.y + 2 ≡ right.y + right.h)
infrastructure-overlaps_example = infrastructure-overlaps started (codes "Next")

empty-IsNumbered : IsNumbered empty_board
unfolding ids
empty-IsNumbered = record { by_place = tt }

-- The whole dashboard has 30 panels.
full_length : length (all_sections empty_board).panels ≡ 30
unfolding all_sections overview ingress latency breakdown infrastructure analytics vitals append
    down add_row
full_length = refl

all_sections-Distinct_example : Distinct (ids (all_sections empty_board))
all_sections-Distinct_example =
    all_sections-Distinct empty_board empty-IsNumbered (omega (arith, full_length))

abbrev series : List Target
series =
    target (codes "up") (codes "Up") (some (codes "green"))
    ∷ target (codes "down") (codes "Down") none
    ∷ []

abbrev chart : Json
chart =
    create_timeseries empty_board (codes "Hosts") series 0 12 8 (codes "none") 60 false
      (codes "line")

overrides-create_timeseries_example :
    (overrides : List Json) × (get_in "fieldConfig" "overrides" chart ≡ some (arr overrides))
    × (map reading overrides ≡ map painted (colored series))
overrides-create_timeseries_example =
    overrides-create_timeseries empty_board (codes "Hosts") series 0 12 8 (codes "none") 60 false
      (codes "line")

queries-create_timeseries_example :
    (length (queries_of chart) ≡ 2)
    × Distinct (refs (queries_of chart))
    × (2 ≤ 26 → All IsLetter (refs (queries_of chart)))
    × (map (get "expr") (queries_of chart) ≡ map (λ (t : Target). some (str t.expr)) series)
    × (map (get "legendFormat") (queries_of chart)
        ≡ map (λ (t : Target). some (str t.legend)) series)
queries-create_timeseries_example =
    queries-create_timeseries empty_board (codes "Hosts") series 0 12 8 (codes "none") 60 false
      (codes "line")

shown-expected_example :
    (shown (create_bar_box empty_board [] [] 0 [] [] 1000 true) 200 ≡ expected 1000 true 200)
    × (shown (create_speedometer empty_board [] [] 0 [] [] 1000 true) 200 ≡ expected 1000 true 200)
shown-expected_example = shown-expected empty_board [] [] 0 [] [] 1000 true 200
