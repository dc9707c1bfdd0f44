-- ===== src/Dashboard/Grid.antt =====
-- Where panels lie: the rectangle of a panel's `gridPos` on the grid of 24 columns, and boards whose
-- panels do not overlap.
use nex_pulse.Base.{
  ℕ, ◌+◌, ◌≤◌, ◌≡◌, sym, ap, ◌∙◌, ◌⊎◌, inl, Option, none, some, List, [], ◌∷◌, ◌++◌, map, arith,
  All, All-append, All-map,
}
use mathlib.Core.List.{map-append}
use nex_pulse.Json.{Json, get, get_int}
use nex_pulse.Dashboard.Board.{Board}

pub record Rect : Type 0 where
  pub x : ℕ
  pub y : ℕ
  pub w : ℕ
  pub h : ℕ

abbrev pub rect : ℕ → ℕ → ℕ → ℕ → Rect
rect x y w h = record { x = x; y = y; w = w; h = h }

infixl 5 ◌>>=◌
abbrev ◌>>=◌ : {A B : Type 0} → Option A → (A → Option B) → Option B
none >>= f = none
some a >>= f = f a

-- The rectangle that a panel asks for.
unfoldable pub rect_of : Json → Option Rect
unfolding get get_int
rect_of panel = do
  grid ← get "gridPos" panel
  x ← get_int "x" grid
  y ← get_int "y" grid
  w ← get_int "w" grid
  h ← get_int "h" grid
  some (rect x y w h)

unfoldable pub grid : Board → List (Option Rect)
unfolding rect_of
grid b = map rect_of b.panels

-- Two rectangles have no cell in common.
abbrev pub Disjoint : Rect → Rect → Type 0
Disjoint r q = (r.y + r.h ≤ q.y) ⊎ (q.y + q.h ≤ r.y) ⊎ (r.x + r.w ≤ q.x) ⊎ (q.x + q.w ≤ r.x)

-- No two of them have.
abbrev pub Apart : List Rect → Type 0
Apart [] = Unit
Apart (r ∷ rs) = All (Disjoint r) rs × Apart rs

-- Within the 24 columns, from row `top` up to row `bottom`.
abbrev pub Between : ℕ → ℕ → Rect → Type 0
Between top bottom r = (top ≤ r.y) × (r.y + r.h ≤ bottom) × (r.x + r.w ≤ 24)

-- All panels have a place above `y_pos`, and no two of them overlap.
pub record IsStacked (b : Board) : Type 0 where
  pub rects : List Rect
  pub places : grid b ≡ map some rects
  pub inside : All (Between 0 b.y_pos) rects
  pub apart : Apart rects

-- What a section adds, where it starts at `y`: rectangles between `y` and the new `y_pos`.
pub record Adds (b b' : Board) (new : List Rect) : Type 0 where
  pub places : grid b' ≡ grid b ++ map some new
  pub inside : All (Between b.y_pos b'.y_pos) new
  pub apart : Apart new

Apart-append :
    (rs new : List Rect) (y y' : ℕ)
    → All (Between 0 y) rs
    → All (Between y y') new
    → Apart rs
    → Apart new
    → Apart (rs ++ new)
Apart-append [] new y y' _ _ _ k = k
Apart-append (r ∷ rs) new y y' (h, hs) hn (d, ds) k = (
  All-append _ rs new d (All-map (λ q between. below q between.0) new hn),
  Apart-append rs new y y' hs hn ds k,
)
  where
    below : (q : Rect) → y ≤ q.y → Disjoint r q
    below q lt = inl (omega arith)

pub Adds-IsStacked :
    {b b' : Board} {new : List Rect}
    → b.y_pos ≤ b'.y_pos
    → Adds b b' new
    → IsStacked b
    → IsStacked b'
Adds-IsStacked {b} {b'} {new} lt a s = record {
  rects = s.rects ++ new;
  places = a.places ∙ ap (λ t. t ++ map some new) s.places ∙ sym (map-append some s.rects new);
  inside =
      All-append _ s.rects new
        (All-map (λ r h. (omega arith, omega arith, omega arith)) s.rects s.inside)
        (All-map (λ r h. (omega arith, omega arith, omega arith)) new a.inside);
  apart = Apart-append s.rects new b.y_pos b'.y_pos s.inside a.inside s.apart a.apart;
}
