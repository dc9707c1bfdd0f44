-- ===== src/Dashboard/Numbers.antt =====
-- The ids of the panels: where they come from, and up to which size of a board no two are the same.
use mathlib.Core.Path.{subst}
use mathlib.Core.List.{map-append}
use nex_pulse.Base.{
  ℕ, suc, ◌+◌, ◌≤◌, ◌<◌, ◌≡◌, ◌≢◌, refl, ap, ◌⊎◌, inl, inr, List, [], ◌∷◌, ◌++◌, map, Option, some,
  arith, All, Distinct, length,
}
use nex_pulse.Text.{Text}
use nex_pulse.Json.{Json, dict, get, get_int}
use nex_pulse.Dashboard.Board.{Board, row_panel, append, down, add_row}
use nex_pulse.Dashboard.Helpers.{create_minimal_stat, create_bar_box, create_speedometer}
use nex_pulse.Dashboard.Series.{create_timeseries}
use nex_pulse.Dashboard.Traffic.{latency_heatmap, aggregator_telemetry, kafka_activity}
use nex_pulse.Dashboard.Analytics.{events_breakdown, geomap}
use nex_pulse.Dashboard.Health.{vm_health}
use nex_pulse.Dashboard.Vitals.{page_loads, endpoint_traffic}
use nex_pulse.Dashboard.Performance.{page_performance}
use nex_pulse.Dashboard.Sections.{
  overview, ingress, latency, breakdown, infrastructure, analytics, vitals, all_sections,
}

unfoldable pub id_of : Json → Option ℕ
unfolding get get_int
id_of panel = get_int "id" panel

unfoldable pub ids : Board → List (Option ℕ)
ids b = map id_of b.panels

-- The id of the panel at position `i` is i + 1, or i + 100 for a row.
abbrev pub Number : Option ℕ → ℕ → Type 0
Number o i = (o ≡ some (i + 1)) ⊎ (o ≡ some (i + 100))

abbrev pub Numbered : ℕ → List (Option ℕ) → Type 0
Numbered i [] = Unit
Numbered i (o ∷ os) = Number o i × Numbered (i + 1) os

pub record IsNumbered (b : Board) : Type 0 where
  pub by_place : Numbered 0 (ids b)

Numbered-append :
    (i n : ℕ) (os : List (Option ℕ)) (o : Option ℕ)
    → n ≡ i + length os
    → Numbered i os
    → Number o n
    → Numbered i (os ++ o ∷ [])
Numbered-append i n [] o e _ h =
    (subst (λ (k : ℕ). Number o k) (let at : n ≡ i = omega arith in at) h, tt)
Numbered-append i n (p ∷ os) o e (hp, hs) h =
    (hp, Numbered-append (i + 1) n os o (omega arith) hs h)

length-ids : (ps : List Json) → length (map id_of ps) ≡ length ps
length-ids [] = refl
length-ids (p ∷ ps) = ap suc (length-ids ps)

append-IsNumbered :
    (p : Board → Json) (b : Board)
    → Number (id_of (p b)) (length b.panels)
    → IsNumbered b
    → IsNumbered (append p b)
unfolding ids append
append-IsNumbered p b own h = record {
  by_place = rw (map-append id_of b.panels (p b ∷ [])) (
      Numbered-append 0 (length b.panels) (map id_of b.panels) (id_of (p b))
        (omega (arith, length-ids b.panels)) h.by_place own);
}

down-IsNumbered : (n : ℕ) {b : Board} → IsNumbered b → IsNumbered (down n b)
unfolding ids down
down-IsNumbered n h = record { by_place = h.by_place }

add_row-IsNumbered : (title : Text) (b : Board) → IsNumbered b → IsNumbered (add_row title b)
unfolding add_row row_panel dict id_of
add_row-IsNumbered title b h =
    down-IsNumbered 1 (append-IsNumbered (row_panel title) b (inr refl) h)

overview-IsNumbered : (b : Board) → IsNumbered b → IsNumbered (overview b)
unfolding overview create_minimal_stat create_bar_box create_speedometer dict id_of
overview-IsNumbered b h = down-IsNumbered 5 (
    append-IsNumbered _ _ (inl refl) (
      append-IsNumbered _ _ (inl refl) (
        append-IsNumbered _ _ (inl refl) (
          append-IsNumbered _ _ (inl refl) (
            append-IsNumbered _ _ (inl refl) (
              append-IsNumbered _ _ (inl refl) (
                append-IsNumbered _ _ (inl refl)
                  (append-IsNumbered _ _ (inl refl) (add_row-IsNumbered _ _ h)))))))))

ingress-IsNumbered : (b : Board) → IsNumbered b → IsNumbered (ingress b)
unfolding ingress create_timeseries dict id_of
ingress-IsNumbered b h = down-IsNumbered 8 (
    append-IsNumbered _ _ (inl refl) (
      append-IsNumbered _ _ (inl refl)
        (append-IsNumbered _ _ (inl refl) (add_row-IsNumbered _ _ h))))

latency-IsNumbered : (b : Board) → IsNumbered b → IsNumbered (latency b)
unfolding latency create_timeseries latency_heatmap dict id_of
latency-IsNumbered b h =
    down-IsNumbered 9 (
      append-IsNumbered _ _ (inl refl)
        (append-IsNumbered _ _ (inl refl) (add_row-IsNumbered _ _ h)))

breakdown-IsNumbered : (b : Board) → IsNumbered b → IsNumbered (breakdown b)
unfolding breakdown create_timeseries aggregator_telemetry dict id_of
breakdown-IsNumbered b h =
    down-IsNumbered 8 (
      append-IsNumbered _ _ (inl refl)
        (append-IsNumbered _ _ (inl refl) (add_row-IsNumbered _ _ h)))

infrastructure-IsNumbered : (b : Board) → IsNumbered b → IsNumbered (infrastructure b)
unfolding infrastructure create_timeseries kafka_activity dict id_of
infrastructure-IsNumbered b h =
    down-IsNumbered 7 (
      append-IsNumbered _ _ (inl refl)
        (append-IsNumbered _ _ (inl refl) (add_row-IsNumbered _ _ h)))

analytics-IsNumbered : (b : Board) → IsNumbered b → IsNumbered (analytics b)
unfolding analytics events_breakdown geomap vm_health dict id_of
analytics-IsNumbered b h = down-IsNumbered 8 (
    append-IsNumbered _ _ (inl refl) (
      down-IsNumbered 12 (
        append-IsNumbered _ _ (inl refl)
          (append-IsNumbered _ _ (inl refl) (add_row-IsNumbered _ _ h)))))

vitals-IsNumbered : (b : Board) → IsNumbered b → IsNumbered (vitals b)
unfolding vitals page_loads endpoint_traffic page_performance dict id_of
vitals-IsNumbered b h = down-IsNumbered 10 (
    append-IsNumbered _ _ (inl refl) (
      down-IsNumbered 8 (
        append-IsNumbered _ _ (inl refl)
          (append-IsNumbered _ _ (inl refl) (add_row-IsNumbered _ _ h)))))

-- Every section leaves each panel numbered by its place in the list, if it was so before.
sections-IsNumbered :
    (b : Board)
    → IsNumbered b
    → IsNumbered (overview b)
      × IsNumbered (ingress b)
      × IsNumbered (latency b)
      × IsNumbered (breakdown b)
      × IsNumbered (infrastructure b)
      × IsNumbered (analytics b)
      × IsNumbered (vitals b)
sections-IsNumbered b h = (
  overview-IsNumbered b h,
  ingress-IsNumbered b h,
  latency-IsNumbered b h,
  breakdown-IsNumbered b h,
  infrastructure-IsNumbered b h,
  analytics-IsNumbered b h,
  vitals-IsNumbered b h,
)

-- The number of one place is not that of a later one, below 99 places.
Number-ne : (o p : Option ℕ) (i k : ℕ) → i < k → k < 99 → Number o i → Number p k → o ≢ p
Number-ne o p i k lt top ho hp = ground arith

Numbered-ne :
    (o : Option ℕ) (i k : ℕ) (os : List (Option ℕ))
    → Number o i
    → i < k
    → k + length os ≤ 99
    → Numbered k os
    → All (λ p. o ≢ p) os
Numbered-ne o i k [] ho lt top _ = tt
Numbered-ne o i k (p ∷ os) ho lt top (hp, hs) = (
  Number-ne o p i k lt (omega arith) ho hp,
  Numbered-ne o i (k + 1) os ho (omega arith) (omega arith) hs,
)

Numbered-Distinct :
    (i : ℕ) (os : List (Option ℕ)) → i + length os ≤ 99 → Numbered i os → Distinct os
Numbered-Distinct i [] top _ = tt
Numbered-Distinct i (o ∷ os) top (h, hs) = (
  Numbered-ne o i (i + 1) os h (omega arith) (omega arith) hs,
  Numbered-Distinct (i + 1) os (omega arith) hs,
)

-- On a board of at most 99 panels no id stands twice.
IsNumbered-Distinct : (b : Board) → IsNumbered b → length b.panels ≤ 99 → Distinct (ids b)
unfolding ids
IsNumbered-Distinct b h top =
    Numbered-Distinct 0 (map id_of b.panels) (omega (arith, length-ids b.panels)) h.by_place

-- If the panels of a board are numbered by their places, and the board that all sections leave has at
-- most 99 panels, then no two panels of that board have the same id, rows included.
pub all_sections-Distinct :
    (b : Board)
    → IsNumbered b
    → length (all_sections b).panels ≤ 99
    → Distinct (ids (all_sections b))
all_sections-Distinct b h top = IsNumbered-Distinct (all_sections b) numbered top
  where
    numbered : IsNumbered (all_sections b)
    numbered =
        unfold all_sections in
        vitals-IsNumbered _ (
          analytics-IsNumbered _ (
            infrastructure-IsNumbered _ (
              breakdown-IsNumbered _
                (latency-IsNumbered _ (ingress-IsNumbered _ (overview-IsNumbered b h))))))
