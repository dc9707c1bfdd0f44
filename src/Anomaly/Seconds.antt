-- ===== src/Anomaly/Seconds.antt =====
-- The detector by the seconds: no event is lost or counted twice, however recording and ticks
-- interleave.
use Prim.Native.Nat.{◌^◌}
use nex_pulse.Base.{ℕ, ◌+◌, ◌%◌, ◌≡◌, refl, ap, ◌∙◌, List, [], ◌∷◌, map, arith}
use nex_pulse.Anomaly.Detector.{
  Detector, evaluate, record_event, tick, Signal, recorded, ticked, run,
}

-- How many events each second had that has ended, where the current one had `n` before.
unfoldable pub counts : ℕ → List Signal → List ℕ
counts n [] = []
counts n (recorded ∷ signals) = counts (n + 1) signals
counts n (ticked ∷ signals) = n ∷ counts 0 signals

-- How many events the last second had, which has not ended.
unfoldable pub pending : ℕ → List Signal → ℕ
pending n [] = n
pending n (recorded ∷ signals) = pending (n + 1) signals
pending n (ticked ∷ signals) = pending 0 signals

unfoldable pub evaluate_all : List ℕ → Detector → Detector
evaluate_all [] d = d
evaluate_all (rps ∷ rates) d = evaluate_all rates (evaluate rps d)

abbrev pub with_count : ℕ → Detector → Detector
with_count n d = record d { current_second_events = n }

evaluate-with_count :
    (n rps : ℕ) (d : Detector) → evaluate rps (with_count n d) ≡ with_count n (evaluate rps d)
unfolding evaluate
evaluate-with_count n rps d = ground arith

evaluate_all-with_count :
    (n : ℕ) (rates : List ℕ) (d : Detector)
    → evaluate_all rates (with_count n d) ≡ with_count n (evaluate_all rates d)
unfolding evaluate_all
evaluate_all-with_count n [] d = refl
evaluate_all-with_count n (rps ∷ rates) d =
    ap (evaluate_all rates) (evaluate-with_count n rps d)
    ∙ evaluate_all-with_count n rates (evaluate rps d)

add_wraps : (n : ℕ) → (n % 2 ^ 64 + 1) % 2 ^ 64 ≡ (n + 1) % 2 ^ 64
add_wraps n = omega arith

pub run-counts :
    (signals : List Signal) (n : ℕ) (d : Detector)
    → run signals (with_count (n % 2 ^ 64) d)
      ≡ with_count
          (pending n signals % 2 ^ 64)
          (evaluate_all (map (λ m. m % 2 ^ 64) (counts n signals)) d)
unfolding run counts pending evaluate_all record_event tick
run-counts [] n d = refl
run-counts (recorded ∷ signals) n d =
    ap (λ m. run signals (with_count m d)) (add_wraps n) ∙ run-counts signals (n + 1) d
run-counts (ticked ∷ signals) n d =
    ap (run signals) (evaluate-with_count 0 (n % 2 ^ 64) d)
    ∙ run-counts signals 0 (evaluate (n % 2 ^ 64) d)

unfoldable pub sum : List ℕ → ℕ
sum [] = 0
sum (n ∷ ns) = n + sum ns

unfoldable pub recordings : List Signal → ℕ
recordings [] = 0
recordings (recorded ∷ signals) = recordings signals + 1
recordings (ticked ∷ signals) = recordings signals

sum-counts :
    (signals : List Signal) (n : ℕ)
    → sum (counts n signals) + pending n signals ≡ n + recordings signals
unfolding sum counts pending recordings
sum-counts [] n = omega arith
sum-counts (recorded ∷ signals) n = omega (arith, sum-counts signals (n + 1))
sum-counts (ticked ∷ signals) n = omega (arith, sum-counts signals 0)

-- In any order of events and ticks, the detector is evaluated once for each second that has ended, at
-- the number of its events (which wraps as an int64 does), and holds the number of those behind the
-- last tick; and these numbers add up to the number of the events recorded.
pub run-seconds :
    (signals : List Signal) (d : Detector)
    → (run signals (with_count 0 d)
        ≡ with_count
            (pending 0 signals % 2 ^ 64)
            (evaluate_all (map (λ m. m % 2 ^ 64) (counts 0 signals)) d))
      × (sum (counts 0 signals) + pending 0 signals ≡ recordings signals)
run-seconds signals d = (run-counts signals 0 d, omega (arith, sum-counts signals 0))
