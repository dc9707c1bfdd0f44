-- ===== src/Dashboard/Thresholds.antt =====
-- The colors that a bar box or a speedometer shows for a value.
use nex_pulse.Base.{
  ℕ, String, ◌*◌, ◌≡◌, Bool, true, false, Option, none, some, List, [], ◌∷◌, arith, ltb, leb,
  if◌then◌else◌,
}
use Prim.Native.Nat.{◌^◌}
use nex_pulse.Text.{Text}
use nex_pulse.Json.{Json, null, int, float, quoted, arr, dict, get, elements}
use nex_pulse.Dashboard.Board.{Board}
use nex_pulse.Dashboard.Helpers.{threshold_steps, create_bar_box, create_speedometer}

-- A step holds from its value on; the one without a value holds from the start.
reached : Json → ℕ → Bool
reached null v = true
reached (int n) v = leb n v
reached (float m p) v = leb m (v * 10 ^ p)
reached _ v = false

-- The color of the last step that a value has reached, as the mode "absolute" reads them.
color_from : Option Json → List Json → ℕ → Option Json
unfolding reached
color_from shown [] v = shown
color_from shown (step ∷ steps) v = elim (get "value" step) [
  | none ↦ color_from shown steps v
  | some from ↦ color_from (if reached from v then get "color" step else shown) steps v
]

pub color_at : Json → ℕ → Option Json
unfolding color_from
color_at steps v = color_from none (elements steps) v

-- The color for a value: the first below the lower share of the maximum (in tenths), the second from
-- there on, and the third from the upper share on.
abbrev pub zones : ℕ → ℕ → ℕ → ℕ → String → String → String → Option Json
zones max_val v lower upper low middle high =
    if ltb (v * 10) (max_val * lower)
    then some (quoted low)
    else if ltb (v * 10) (max_val * upper)
    then some (quoted middle)
    else some (quoted high)

color_at-threshold_steps :
    (max_val v : ℕ)
    → color_at (threshold_steps max_val false) v ≡ zones max_val v 7 9 "green" "orange" "red"
unfolding color_at threshold_steps elements arr get dict
color_at-threshold_steps max_val v = ground arith

color_at-inverted :
    (max_val v : ℕ)
    → color_at (threshold_steps max_val true) v ≡ zones max_val v 1 3 "red" "orange" "green"
unfolding color_at threshold_steps elements arr get dict
color_at-inverted max_val v = ground arith

abbrev below : String → Option Json → Option Json
below k none = none
below k (some j) = get k j

-- The color that a panel shows for a value, by its own steps.
abbrev pub shown : Json → ℕ → Option Json
shown panel v =
    elim (below "steps" (below "thresholds" (below "defaults" (get "fieldConfig" panel)))) [
      | none ↦ none
      | some steps ↦ color_at steps v
    ]

-- What a gauge is to show.
abbrev pub expected : ℕ → Bool → ℕ → Option Json
expected max_val true v = zones max_val v 1 3 "red" "orange" "green"
expected max_val false v = zones max_val v 7 9 "green" "orange" "red"

steps-expected :
    (max_val : ℕ) (invert_colors : Bool) (v : ℕ)
    → color_at (threshold_steps max_val invert_colors) v ≡ expected max_val invert_colors v
steps-expected max_val true v = color_at-inverted max_val v
steps-expected max_val false v = color_at-threshold_steps max_val v

-- A bar box and a speedometer show, for every maximum and value: green below seven tenths of the
-- maximum, orange from there on and red from nine tenths on; and with inverted colors, red below one
-- tenth, orange from there on and green from three tenths on.
pub shown-expected :
    (b : Board) (title expr : Text) (x : ℕ) (color unit : Text) (max_val : ℕ) (invert_colors : Bool)
    (v : ℕ)
    → (shown (create_bar_box b title expr x color unit max_val invert_colors) v
        ≡ expected max_val invert_colors v)
      × (shown (create_speedometer b title expr x color unit max_val invert_colors) v
          ≡ expected max_val invert_colors v)
unfolding create_bar_box create_speedometer get dict
shown-expected b title expr x color unit max_val invert_colors v =
    (steps-expected max_val invert_colors v, steps-expected max_val invert_colors v)
