-- ===== src/Anomaly/Detector.antt =====
-- services/anomaly/detector/ema.go: the counter of events, and what the ticker's goroutine does in each
-- second.
use Prim.Native.Nat.{◌^◌}
use nex_pulse.Base.{ℕ, ◌+◌, ◌%◌, Bool, false, ◌&&◌, List, [], ◌∷◌, ◌++◌, ltb, if◌then◌else◌}
use nex_pulse.Anomaly.Float64.{Float64, float64, plus, times, negate, exceeds}

-- The variables of the package, currentSecondEvents by its bits, and the alerts that were published,
-- each with its rate and average.
pub record Detector : Type 0 where
  pub current_second_events : ℕ
  pub current_ema : Float64
  pub initialized : Bool
  pub alerts : List (ℕ × Float64)

-- The float64 nearest to 0.2.
abbrev pub alpha : Float64
alpha = record { negative = false; magnitude = 3602879701896397; scale = 54 }

abbrev pub one : Float64
one = record { negative = false; magnitude = 1; scale = 0 }

abbrev pub two : Float64
two = record { negative = false; magnitude = 2; scale = 0 }

-- `n > m` of an int64, given by its bits, and a number that is none too large.
abbrev pub greater : ℕ → ℕ → Bool
greater n m = ltb m n && ltb n (2 ^ 63)

unfoldable pub new_detector : Detector
new_detector = record {
  current_second_events = 0;
  current_ema = record { negative = false; magnitude = 0; scale = 0 };
  initialized = false;
  alerts = [];
}

-- `alpha*float64(rps) + (1-alpha)*currentEMA`
unfoldable pub smooth : Float64 → ℕ → Float64
smooth ema rps = plus (times alpha (float64 rps)) (times (plus one (negate alpha)) ema)

-- The condition of the alert.
unfoldable pub is_spike : Float64 → ℕ → Bool
is_spike ema rps = exceeds (float64 rps) (times ema two) && greater rps 100

unfoldable pub record_event : Detector → Detector
record_event d = record d { current_second_events = (d.current_second_events + 1) % 2 ^ 64 }

-- The round of the loop with the count of the last second.
unfoldable pub evaluate : ℕ → Detector → Detector
unfolding smooth is_spike
evaluate rps d =
    let ema = smooth d.current_ema rps in
    if d.initialized
    then record d {
      current_ema = ema;
      alerts = if is_spike ema rps then d.alerts ++ (rps, ema) ∷ [] else d.alerts;
    }
    else record d { current_ema = float64 rps; initialized = greater rps 0 }

-- A tick: the counter is read and reset at once.
unfoldable pub tick : Detector → Detector
unfolding evaluate
tick d = evaluate d.current_second_events (record d { current_second_events = 0 })

-- A request to record an event, or a tick of the ticker.
pub data Signal : Type 0 where
  recorded ticked : Signal

unfoldable pub run : List Signal → Detector → Detector
unfolding record_event tick
run [] d = d
run (recorded ∷ signals) d = run signals (record_event d)
run (ticked ∷ signals) d = run signals (tick d)
