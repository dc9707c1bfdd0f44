-- ===== src/Dashboard/Stacking.antt =====
-- Which sections of the generated dashboard keep their panels apart.
use mathlib.Core.Path.{subst}
use mathlib.Core.List.{map-append}
use nex_pulse.Base.{
  ℕ, ◌+◌, ◌≡◌, sym, ap, ◌∙◌, List, [], ◌∷◌, ◌++◌, map, some, append_assoc, arith, All,
}
use nex_pulse.Text.{Text}
use nex_pulse.Json.{dict}
use nex_pulse.Dashboard.Board.{Board, append, down, add_row}
use nex_pulse.Dashboard.Grid.{Rect, rect, grid, Between, Disjoint, Apart, Adds-IsStacked, IsStacked}
use nex_pulse.Dashboard.Sections.{
  overview, ingress, latency, breakdown, infrastructure, analytics, vitals,
}
use nex_pulse.Dashboard.Layout.{
  overview_rects, grid-overview, y_pos-overview, ingress_rects, grid-ingress, y_pos-ingress,
  latency_rects, grid-latency, y_pos-latency, breakdown_rects, grid-breakdown, y_pos-breakdown,
  infrastructure_rects, grid-infrastructure, y_pos-infrastructure, analytics_rects, grid-analytics,
  y_pos-analytics, vitals_rects, grid-vitals, y_pos-vitals,
}

-- A section whose rectangles lie between the two heights and apart keeps a board stacked.
section-IsStacked :
    (b b' : Board) (new : List Rect) (n : ℕ)
    → grid b' ≡ grid b ++ map some new
    → b'.y_pos ≡ b.y_pos + n
    → All (Between b.y_pos (b.y_pos + n)) new
    → Apart new
    → IsStacked b
    → IsStacked b'
section-IsStacked b b' new n g e inside apart =
    Adds-IsStacked {b = b} {b' = b'} {new = new} (omega arith) (record {
      places = g;
      inside = subst (λ y. All (Between b.y_pos y) new) (sym e) inside;
      apart = apart;
    })

overview-IsStacked : (b : Board) → IsStacked b → IsStacked (overview b)
overview-IsStacked b =
    section-IsStacked b (overview b) (overview_rects b.y_pos) 6 (grid-overview b)
      (omega (arith, y_pos-overview b)) (omega arith) (omega arith)

ingress-IsStacked : (b : Board) → IsStacked b → IsStacked (ingress b)
ingress-IsStacked b =
    section-IsStacked b (ingress b) (ingress_rects b.y_pos) 9 (grid-ingress b)
      (omega (arith, y_pos-ingress b)) (omega arith) (omega arith)

latency-IsStacked : (b : Board) → IsStacked b → IsStacked (latency b)
latency-IsStacked b =
    section-IsStacked b (latency b) (latency_rects b.y_pos) 10 (grid-latency b)
      (omega (arith, y_pos-latency b)) (omega arith) (omega arith)

breakdown-IsStacked : (b : Board) → IsStacked b → IsStacked (breakdown b)
breakdown-IsStacked b =
    section-IsStacked b (breakdown b) (breakdown_rects b.y_pos) 9 (grid-breakdown b)
      (omega (arith, y_pos-breakdown b)) (omega arith) (omega arith)

analytics-IsStacked : (b : Board) → IsStacked b → IsStacked (analytics b)
analytics-IsStacked b =
    section-IsStacked b (analytics b) (analytics_rects b.y_pos) 21 (grid-analytics b)
      (omega (arith, y_pos-analytics b)) (omega arith) (omega arith)

vitals-IsStacked : (b : Board) → IsStacked b → IsStacked (vitals b)
vitals-IsStacked b =
    section-IsStacked b (vitals b) (vitals_rects b.y_pos) 19 (grid-vitals b)
      (omega (arith, y_pos-vitals b)) (omega arith) (omega arith)

-- Every section but the one on infrastructure, started on a board whose panels lie apart, inside the
-- 24 columns and above `y_pos`, leaves such a board.
pub sections-IsStacked :
    (b : Board)
    → IsStacked b
    → IsStacked (overview b)
      × IsStacked (ingress b)
      × IsStacked (latency b)
      × IsStacked (breakdown b)
      × IsStacked (analytics b)
      × IsStacked (vitals b)
sections-IsStacked b s = (
  overview-IsStacked b s,
  ingress-IsStacked b s,
  latency-IsStacked b s,
  breakdown-IsStacked b s,
  analytics-IsStacked b s,
  vitals-IsStacked b s,
)

grid-add_row :
    (title : Text) (b : Board)
    → grid (add_row title b) ≡ grid b ++ map some (rect 0 b.y_pos 24 1 ∷ [])
unfolding add_row append down grid dict
grid-add_row title b = simp map-append

-- The section on infrastructure adds a row and two panels that lie apart inside the 24 columns, whatever
-- the board it starts on; but it moves down by less than their height, so that the row that the next
-- section adds overlaps with each of the two panels, which reach to one row of cells below it.
pub infrastructure-overlaps :
    (b : Board) (title : Text)
    → (left : Rect) × (right : Rect) × (row : Rect) × (grid (add_row title (infrastructure b))
        ≡ grid b ++ map some (rect 0 b.y_pos 24 1 ∷ left ∷ right ∷ row ∷ []))
      × Apart (rect 0 b.y_pos 24 1 ∷ left ∷ right ∷ [])
      × All (Between b.y_pos (row.y + 2)) (left ∷ right ∷ row ∷ [])
      × (¬ Disjoint left row)
      × (¬ Disjoint right row)
      × (row.y + 2 ≡ left.y + left.h)
      × (row.y + 2 ≡ right.y + right.h)
infrastructure-overlaps b title =
    let y = y_pos-infrastructure b in
    let row : Rect = rect 0 (infrastructure b).y_pos 24 1 in
    (
      rect 0 (b.y_pos + 1) 12 9,
      rect 12 (b.y_pos + 1) 12 9,
      row,
      grid-add_row title (infrastructure b)
          ∙ ap (λ t. t ++ map some (row ∷ [])) (grid-infrastructure b)
          ∙ append_assoc (grid b) (map some (infrastructure_rects b.y_pos)) (map some (row ∷ [])),
      omega arith,
      omega (arith, y),
      λ d. omega (arith, y, d),
      λ d. omega (arith, y, d),
      omega (arith, y),
      omega (arith, y),
    )
