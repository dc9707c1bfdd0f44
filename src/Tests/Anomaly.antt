-- ===== src/Tests/Anomaly.antt =====
-- The anomaly detector on concrete rates.
use Prim.Native.Nat.{◌^◌}
use nex_pulse.Base.{
  ℕ, ◌≤◌, ◌+◌, ◌+◌, ◌*◌, ◌%◌, ◌≡◌, ◌<◌, refl, true, false, List, [], ◌∷◌, map, arith, All,
}
use nex_pulse.Anomaly.Steady.{repeat, alerts-evaluate_all}
use nex_pulse.Anomaly.Historic.{is_above_history, is_spike-history}
use nex_pulse.Anomaly.Float64.{Float64, round, plus, times, negate, exceeds, float64}
use nex_pulse.Anomaly.Detector.{
  alpha, one, new_detector, smooth, evaluate, is_spike, Signal, recorded, ticked, run,
}
use nex_pulse.Anomaly.Seconds.{
  counts, pending, evaluate_all, with_count, sum, recordings, run-seconds,
}
use nex_pulse.Anomaly.Alerts.{watching, quiet}

-- `1 - 0.2` is the float64 nearest to 0.8.
rest_of_alpha :
    plus one (negate alpha) ≡ record { negative = false; magnitude = 7205759403792794; scale = 53 }
unfolding plus negate
rest_of_alpha = refl

-- 0.1 + 0.2 is not the float64 nearest to 0.3, but the next one.
tenths :
    plus (record { negative = false; magnitude = 3602879701896397; scale = 55 }) alpha
    ≡ record { negative = false; magnitude = 5404319552844596; scale = 54 }
unfolding plus
tenths = refl

-- An average of 100 and a second with 250 events give the average 130.
smooth_run :
    smooth (float64 100) 250 ≡ record { negative = false; magnitude = 130 * 2 ^ 45; scale = 45 }
unfolding smooth plus times negate float64
smooth_run = refl

-- More than double the average before, but not an alert.
silent_at_double : is_spike (smooth (float64 100) 250) 250 ≡ false
unfolding is_spike exceeds smooth plus times negate float64
silent_at_double = refl

alert_at_triple : is_spike (smooth (float64 100) 300) 300 ≡ true
unfolding is_spike exceeds smooth plus times negate float64
alert_at_triple = refl

-- A quiet second, one event, a second with two, and one more event.
abbrev three_seconds : List Signal
three_seconds = ticked ∷ recorded ∷ ticked ∷ recorded ∷ recorded ∷ ticked ∷ recorded ∷ []

three_counts : counts 0 three_seconds ≡ quiet 1 (1 ∷ 2 ∷ [])
unfolding counts quiet
three_counts = refl

three_small : All (λ n. n < 2 ^ 63) (counts 0 three_seconds)
unfolding counts
three_small = (omega arith, (omega arith, (omega arith, tt)))

run-seconds_example :
    (run three_seconds (with_count 0 new_detector)
      ≡ with_count
          (pending 0 three_seconds % 2 ^ 64)
          (evaluate_all (map (λ m. m % 2 ^ 64) (counts 0 three_seconds)) new_detector))
    × (sum (counts 0 three_seconds) + pending 0 three_seconds ≡ recordings three_seconds)
run-seconds_example = run-seconds three_seconds new_detector

-- 2^53 + 1 lies half way between two float64, and goes to the even one.
ties_to_even :
    round false (2 ^ 53 + 1) 0 ≡ record { negative = false; magnitude = 2 ^ 53; scale = 0 }
unfolding round
ties_to_even = refl

abbrev hundred : Float64
hundred = float64 100

hundred-small : (hundred.negative ≡ false) × (hundred.scale ≤ 1074)
unfolding float64
hundred-small = (refl, omega arith)

spike_at_triple : is_spike (smooth hundred 300) 300 ≡ true
unfolding is_spike exceeds smooth plus times negate float64
spike_at_triple = refl

-- The comment's condition holds where the code's does not.
history_at_double : is_above_history hundred 250 ≡ true
unfolding exceeds times float64
history_at_double = refl

is_spike-history_example : is_above_history hundred 300 ≡ true
is_spike-history_example =
    is_spike-history 300 hundred hundred-small.0 hundred-small.1 spike_at_triple

alerts-evaluate_all_example :
    (evaluate_all (repeat 8 4000) (watching 0 hundred [])).alerts
    ≡ (evaluate_all (repeat 3 4000) (watching 0 hundred [])).alerts
alerts-evaluate_all_example = alerts-evaluate_all 5 4000 0 hundred [] (omega arith) hundred-small.0

-- A jump from 100 to 8000 alerts for three seconds.
three_alerts :
    map (λ (a : ℕ × Float64). a.0) (evaluate_all (repeat 8 8000) (watching 0 hundred [])).alerts
    ≡ 8000 ∷ 8000 ∷ 8000 ∷ []
unfolding evaluate_all repeat evaluate is_spike exceeds smooth plus times negate float64
three_alerts = refl
