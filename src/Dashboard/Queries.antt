-- ===== src/Dashboard/Queries.antt =====
-- The targets and the overrides of a time series.
use nex_pulse.Base.{
  ℕ, suc, ◌+◌, ◌≤◌, ◌<◌, ◌≡◌, ◌≢◌, refl, sym, ap, ◌∙◌, Bool, Option, none, some, String, List, [],
  ◌∷◌, ◌++◌, map, append_assoc, append-nil, arith, All, Distinct, length,
}
use nex_pulse.Text.{Text}
use nex_pulse.Json.{Json, str, quoted, arr, dict, get, elements, elements-arr}
use nex_pulse.Dashboard.Board.{Board, Target}
use nex_pulse.Dashboard.Series.{
  color_override, add_override, collect_overrides, query_targets, ref_id, create_timeseries,
}

-- The targets that have a color, with it.
abbrev pub with_color : Text → Option Text → List (Text × Text) → List (Text × Text)
with_color legend none rest = rest
with_color legend (some color) rest = (legend, color) ∷ rest

abbrev pub colored : List Target → List (Text × Text)
colored [] = []
colored (t ∷ ts) = with_color t.legend t.color (colored ts)

abbrev pub override_of : Text × Text → Json
override_of (legend, color) = color_override legend color

add_override-colored :
    (legend : Text) (color : Option Text) (acc : List Json) (rest : List (Text × Text))
    → add_override legend color acc ++ map override_of rest
      ≡ acc ++ map override_of (with_color legend color rest)
unfolding add_override
add_override-colored legend none acc rest = refl
add_override-colored legend (some color) acc rest =
    append_assoc acc (color_override legend color ∷ []) (map override_of rest)

collect_overrides-colored :
    (acc : List Json) (ts : List Target)
    → collect_overrides acc ts ≡ acc ++ map override_of (colored ts)
unfolding collect_overrides
collect_overrides-colored acc [] = sym (append-nil acc)
collect_overrides-colored acc (t ∷ ts) =
    collect_overrides-colored (add_override t.legend t.color acc) ts
    ∙ add_override-colored t.legend t.color acc (colored ts)

-- The value two keys down.
abbrev pub get_in : String → String → Json → Option Json
get_in k j panel = elim (get k panel) [ none ↦ none | some inner ↦ get j inner ]

abbrev pub first : Option Json → Option Json
first none = none
first (some list) = elim (elements list) [ [] ↦ none | j ∷ js ↦ some j ]

abbrev pub within : String → Option Json → Option Json
within k none = none
within k (some j) = get k j

-- How an override finds its series, by which name, what it sets, and to which color.
abbrev pub reading : Json → Option Json × Option Json × Option Json × Option Json
reading override =
    let property = first (get "properties" override) in
    (
      get_in "matcher" "id" override,
      get_in "matcher" "options" override,
      within "id" property,
      within "fixedColor" (within "value" property),
    )

-- A series that is found by its name, and painted.
abbrev pub painted : Text × Text → Option Json × Option Json × Option Json × Option Json
painted (legend, color) =
    (some (quoted "byName"), some (str legend), some (quoted "color"), some (str color))

reading-painted : (cs : List (Text × Text)) → map reading (map override_of cs) ≡ map painted cs
unfolding color_override get dict arr elements quoted
reading-painted [] = refl
reading-painted ((legend, color) ∷ cs) =
    ap (λ rs. painted (legend, color) ∷ rs) (reading-painted cs)

-- A time series has one override for each target that has a color, in their order, which finds the
-- series by the target's legend and sets its color to the target's, and no other override.
pub overrides-create_timeseries :
    (b : Board) (title : Text) (targets : List Target) (x w h : ℕ) (unit : Text) (fill : ℕ)
    (stack : Bool) (draw_style : Text)
    → (overrides : List Json) × (get_in "fieldConfig" "overrides"
          (create_timeseries b title targets x w h unit fill stack draw_style)
        ≡ some (arr overrides))
      × (map reading overrides ≡ map painted (colored targets))
unfolding create_timeseries get dict
overrides-create_timeseries b title targets x w h unit fill stack draw_style = (
  map override_of (colored targets),
  ap (λ os. some (arr os)) (collect_overrides-colored [] targets),
  reading-painted (colored targets),
)

-- What the queries ask for, and under which names.
asked-query_targets :
    (i : ℕ) (ts : List Target)
    → (map (get "expr") (query_targets i ts) ≡ map (λ (t : Target). some (str t.expr)) ts)
      × (map (get "legendFormat") (query_targets i ts)
          ≡ map (λ (t : Target). some (str t.legend)) ts)
unfolding query_targets get dict
asked-query_targets i [] = (refl, refl)
asked-query_targets i (t ∷ ts) =
    let rest = asked-query_targets (suc i) ts in
    (ap (λ rs. some (str t.expr) ∷ rs) rest.0, ap (λ rs. some (str t.legend) ∷ rs) rest.1)

-- The ids of the queries of a list of targets.
abbrev pub refs : List Json → List (Option Json)
refs = map (get "refId")

abbrev pub queries_of : Json → List Json
queries_of panel = elim (get "targets" panel) [ none ↦ [] | some targets ↦ elements targets ]

refs-ne :
    (i k : ℕ) (ts : List Target)
    → i < k
    → All (λ o. some (str (ref_id i)) ≢ o) (refs (query_targets k ts))
unfolding query_targets get dict ref_id
refs-ne i k [] lt = tt
refs-ne i k (t ∷ ts) lt = (λ e. ground arith, refs-ne i (suc k) ts (omega arith))

refs-Distinct : (i : ℕ) (ts : List Target) → Distinct (refs (query_targets i ts))
unfolding query_targets get dict
refs-Distinct i [] = tt
refs-Distinct i (t ∷ ts) = (refs-ne i (suc i) ts (omega arith), refs-Distinct (suc i) ts)

-- A capital letter from A to Z.
abbrev pub IsLetter : Option Json → Type 0
IsLetter o = (c : ℕ) × (o ≡ some (str (c ∷ []))) × (65 ≤ c) × (c ≤ 90)

refs-IsLetter :
    (i : ℕ) (ts : List Target) → i + length ts ≤ 26 → All IsLetter (refs (query_targets i ts))
unfolding query_targets get dict
refs-IsLetter i [] top = tt
refs-IsLetter i (t ∷ ts) top =
    ((65 + i, refl, omega arith, omega arith), refs-IsLetter (suc i) ts (omega arith))

length-query_targets : (i : ℕ) (ts : List Target) → length (query_targets i ts) ≡ length ts
unfolding query_targets
length-query_targets i [] = refl
length-query_targets i (t ∷ ts) = ap suc (length-query_targets (suc i) ts)

-- A time series asks one query for each target, with its expression and its legend, in their order; no
-- two of them have the same id, and up to 26 of them have capital letters for ids.
pub queries-create_timeseries :
    (b : Board) (title : Text) (targets : List Target) (x w h : ℕ) (unit : Text) (fill : ℕ)
    (stack : Bool) (draw_style : Text)
    → let queries =
        queries_of (create_timeseries b title targets x w h unit fill stack draw_style) in
      (length queries ≡ length targets)
      × Distinct (refs queries)
      × (length targets ≤ 26 → All IsLetter (refs queries))
      × (map (get "expr") queries ≡ map (λ (t : Target). some (str t.expr)) targets)
      × (map (get "legendFormat") queries ≡ map (λ (t : Target). some (str t.legend)) targets)
unfolding create_timeseries get dict
queries-create_timeseries b title targets x w h unit fill stack draw_style =
    rw (elements-arr (query_targets 0 targets)) (
      length-query_targets 0 targets,
      refs-Distinct 0 targets,
      λ top. refs-IsLetter 0 targets (omega arith),
      (asked-query_targets 0 targets).0,
      (asked-query_targets 0 targets).1,
    )
