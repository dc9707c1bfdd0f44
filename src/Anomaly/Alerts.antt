-- ===== src/Anomaly/Alerts.antt =====
-- The average and the alerts of the detector, from the number of events in each second.
use Prim.Native.Nat.{◌^◌}
use mathlib.Core.Path.{subst}
use nex_pulse.Base.{
  ℕ, zero, suc, ◌%◌, ◌≡◌, ◌<◌, refl, ap, sym, ◌∙◌, Bool, true, false, List, [], ◌∷◌, ◌++◌,
  append_assoc, append-nil, map, if◌then◌else◌, arith, All,
}
use nex_pulse.Anomaly.Float64.{Float64, float64, times, exceeds}
use nex_pulse.Anomaly.Detector.{
  Detector, two, new_detector, smooth, is_spike, evaluate, Signal, run,
}
use nex_pulse.Anomaly.Seconds.{counts, pending, evaluate_all, with_count, run-counts}

-- The average after the rates, from an average before.
unfoldable pub smooth_all : Float64 → List ℕ → Float64
smooth_all ema [] = ema
smooth_all ema (rps ∷ rates) = smooth_all (smooth ema rps) rates

-- The rates that are spikes against the average that they are part of, each with that average.
unfoldable pub spikes : Float64 → List ℕ → List (ℕ × Float64)
spikes ema [] = []
spikes ema (rps ∷ rates) =
    let rest = spikes (smooth ema rps) rates in
    if is_spike (smooth ema rps) rps then (rps, smooth ema rps) ∷ rest else rest

unfoldable pub quiet : ℕ → List ℕ → List ℕ
quiet zero rates = rates
quiet (suc n) rates = 0 ∷ quiet n rates

-- What is alerted.
abbrev pub IsAlert : ℕ × Float64 → Type 0
IsAlert (rps, ema) = (100 < rps) × (exceeds (float64 rps) (times ema two) ≡ true)

spikes-IsAlert : (ema : Float64) (rates : List ℕ) → All IsAlert (spikes ema rates)
unfolding spikes is_spike
spikes-IsAlert ema [] = tt
spikes-IsAlert ema (rps ∷ rates) = let rest = spikes-IsAlert (smooth ema rps) rates in ground arith

-- A detector before and after its first second with an event.
abbrev pub waiting : ℕ → Float64 → List (ℕ × Float64) → Detector
waiting n ema alerts = record {
  current_second_events = n;
  current_ema = ema;
  initialized = false;
  alerts = alerts;
}

abbrev pub watching : ℕ → Float64 → List (ℕ × Float64) → Detector
watching n ema alerts = record {
  current_second_events = n;
  current_ema = ema;
  initialized = true;
  alerts = alerts;
}

push {ℓ} :
    {A : Type ℓ} (b : Bool) (x : A) (xs ys : List A)
    → (if b then xs ++ x ∷ [] else xs) ++ ys ≡ xs ++ (if b then x ∷ ys else ys)
push true x xs ys = append_assoc xs (x ∷ []) ys
push false x xs ys = refl

pub evaluate_all-watching :
    (rates : List ℕ) (n : ℕ) (ema : Float64) (alerts : List (ℕ × Float64))
    → evaluate_all rates (watching n ema alerts)
      ≡ watching n (smooth_all ema rates) (alerts ++ spikes ema rates)
unfolding evaluate_all evaluate smooth_all spikes
evaluate_all-watching [] n ema alerts = ap (watching n ema) (sym (append-nil alerts))
evaluate_all-watching (rps ∷ rates) n ema alerts =
    evaluate_all-watching rates n (smooth ema rps)
      (if is_spike (smooth ema rps) rps then alerts ++ (rps, smooth ema rps) ∷ [] else alerts)
    ∙ ap (watching n (smooth_all (smooth ema rps) rates)) (
        push (is_spike (smooth ema rps) rps) (rps, smooth ema rps) alerts
          (spikes (smooth ema rps) rates))

evaluate-first :
    (first n : ℕ) (ema : Float64) (alerts : List (ℕ × Float64))
    → 0 < first
    → first < 2 ^ 63
    → evaluate first (waiting n ema alerts) ≡ watching n (float64 first) alerts
unfolding evaluate
evaluate-first first n ema alerts some_event small = ground arith

evaluate_all-quiet :
    (k first : ℕ) (rates : List ℕ) (n : ℕ) (ema : Float64) (alerts : List (ℕ × Float64))
    → 0 < first
    → first < 2 ^ 63
    → evaluate_all (quiet k (first ∷ rates)) (waiting n ema alerts)
      ≡ watching n (smooth_all (float64 first) rates) (alerts ++ spikes (float64 first) rates)
unfolding evaluate_all evaluate quiet
evaluate_all-quiet zero first rates n ema alerts some_event small =
    ap (evaluate_all rates) (evaluate-first first n ema alerts some_event small)
    ∙ evaluate_all-watching rates n (float64 first) alerts
evaluate_all-quiet (suc k) first rates n ema alerts some_event small =
    evaluate_all-quiet k first rates n (float64 0) alerts some_event small

small_counts : (rates : List ℕ) → All (λ n. n < 2 ^ 63) rates → map (λ m. m % 2 ^ 64) rates ≡ rates
small_counts [] small = refl
small_counts (n ∷ rates) small =
    let same : n % 2 ^ 64 ≡ n = omega (arith, small.0) in
    rw same (ap (λ ns. n ∷ ns) (small_counts rates small.1))

pub quiet-All :
    (k n : ℕ) (rates : List ℕ)
    → All (λ m. m < 2 ^ 63) (quiet k (n ∷ rates))
    → All (λ m. m < 2 ^ 63) (n ∷ rates)
unfolding quiet
quiet-All zero n rates h = h
quiet-All (suc k) n rates h = quiet-All k n rates h.1

run-quiet :
    (signals : List Signal) (k first : ℕ) (rates : List ℕ)
    → counts 0 signals ≡ quiet k (first ∷ rates)
    → 0 < first
    → All (λ n. n < 2 ^ 63) (counts 0 signals)
    → run signals new_detector
      ≡ watching
          (pending 0 signals % 2 ^ 64)
          (smooth_all (float64 first) rates)
          (spikes (float64 first) rates)
unfolding new_detector
run-quiet signals k first rates seconds some_event small =
    let bound = quiet-All k first rates (subst (All (λ n. n < 2 ^ 63)) seconds small) in
    run-counts signals 0 new_detector
    ∙ ap (λ ns. with_count (pending 0 signals % 2 ^ 64) (evaluate_all ns new_detector))
        (small_counts (counts 0 signals) small ∙ seconds)
    ∙ ap (with_count (pending 0 signals % 2 ^ 64))
        (evaluate_all-quiet k first rates 0 new_detector.current_ema [] some_event bound.0)

-- If no second has 2^63 events or more, and the first second with an event is that with `first` of
-- them, then the average is that of the seconds from there on, and the alerts are the spikes among the
-- seconds behind it, each of more than 100 events and more than double the average that it is part of.
pub run-alerts :
    (signals : List Signal) (k first : ℕ) (rates : List ℕ)
    → counts 0 signals ≡ quiet k (first ∷ rates)
    → 0 < first
    → All (λ n. n < 2 ^ 63) (counts 0 signals)
    → ((run signals new_detector).current_ema ≡ smooth_all (float64 first) rates)
      × ((run signals new_detector).alerts ≡ spikes (float64 first) rates)
      × All IsAlert (run signals new_detector).alerts
unfolding new_detector
run-alerts signals k first rates seconds some_event small =
    let whole = run-quiet signals k first rates seconds some_event small in
    (
      ap (λ d. d.current_ema) whole,
      ap (λ d. d.alerts) whole,
      subst (λ d. All IsAlert d.alerts) (sym whole) (spikes-IsAlert (float64 first) rates),
    )
