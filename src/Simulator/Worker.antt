-- ===== src/Simulator/Worker.antt =====
-- The workers of tools/simulator/main.go: the interval of the ticker, and the events.
pub mod Pace
pub mod Events
use nex_pulse.Base.{
  ℕ, zero, suc, String, Option, none, some, List, [], ◌∷◌, ◌++◌, get_elem?, if◌then◌else◌,
}
use nex_pulse.Base.Slices.{ℤ, pos, negsuc}
use nex_pulse.Text.{Text, codes}
use nex_pulse.Text.Decimal.{decimal}
use nex_pulse.Json.{Json, str, int}
use nex_pulse.Gateway.Ingest.{Event}
use nex_pulse.Simulator.{quotient}
use text.Mathlib.Text.{◌==◌}

-- `time.NewTicker`, which panics for an interval that is not positive, here none.
abbrev pub new_ticker : Option ℤ → Option ℕ
new_ticker (some (pos (suc n))) = some (suc n)
new_ticker _ = none

-- The interval of a worker in nanoseconds.
unfoldable pub interval : ℤ → Option ℕ
unfolding quotient
interval rps = new_ticker (quotient (pos 1000000000) rps)

abbrev pub types : List Text
types = codes "click" ∷ codes "view" ∷ codes "purchase" ∷ codes "login" ∷ []

-- The type at a random index below 4.
unfoldable pub random_event_type : ℕ → Option Json
unfolding codes
random_event_type i = elim (get_elem? types i) [ some t ↦ some (str t) | none ↦ none ]

-- An event, by the random number of the user, the random index of the type, and the time.
unfoldable pub simulated : ℕ → ℕ → ℕ → Event
unfolding random_event_type
simulated user i now key =
    if key == "user_id"
    then some (str (codes "user_" ++ decimal user))
    else if key == "event_type"
    then random_event_type i
    else if key == "timestamp"
    then some (int now)
    else none
