-- ===== src/Tests/Watching.antt =====
-- The detector behind the gateway on concrete requests.
use Prim.Native.Nat.{◌^◌}
use nex_pulse.Base.{◌≡◌, ◌<◌, ◌≤◌, refl, true, false, none, some, List, [], ◌∷◌, All, arith}
use nex_pulse.Text.{codes}
use nex_pulse.Json.{str}
use nex_pulse.Gateway.Ingest.{Event, Answers, Gateway}
use nex_pulse.Anomaly.Float64.{float64}
use nex_pulse.Anomaly.Detector.{new_detector, run}
use nex_pulse.Anomaly.Alerts.{spikes, quiet, IsAlert}
use nex_pulse.Watching.{
  Moment, asked, arrived, lost, second, watch, unwatched, arrivals, sum, named, signals_of,
  alerts-watch,
}

abbrev of_seven : Event
of_seven _ = some (str (codes "7"))

abbrev pub event : Answers
event = record { bound = some of_seven; allowed = some true; marshals = true; writes = true }

abbrev refused : Answers
refused = record { bound = some of_seven; allowed = some false; marshals = true; writes = true }

abbrev no_json : Answers
no_json = record { bound = none; allowed = some true; marshals = true; writes = true }

-- A second without a request that counts, one with one event, and one in which the pings of an event
-- and of a refused request arrive, while one more ping is lost and another comes a second late.
abbrev moments : List Moment
moments =
    asked no_json
    ∷ arrived
    ∷ second
    ∷ asked event
    ∷ arrived
    ∷ second
    ∷ asked event
    ∷ asked refused
    ∷ arrived
    ∷ asked event
    ∷ lost
    ∷ arrived
    ∷ asked event
    ∷ second
    ∷ arrived
    ∷ second
    ∷ []

moments-arrivals : arrivals 0 0 moments ≡ quiet 1 (1 ∷ 2 ∷ 1 ∷ [])
unfolding arrivals quiet codes
moments-arrivals = refl

moments_small : All (λ n. n < 2 ^ 63) (arrivals 0 0 moments)
unfolding arrivals codes
moments_small = (omega arith, (omega arith, (omega arith, (omega arith, tt))))

abbrev pub idle : Gateway
idle = record {
  active_connections = 0;
  durations = 0;
  bad_request = 0;
  missing_user_id = 0;
  rate_limit = 0;
  kafka_error = 0;
  rate_limit_hits = 0;
  events_ingested = 0;
  produce_durations = 0;
  pings = 0;
  queue = [];
}

alerts-watch_example :
    ((watch moments (unwatched idle)).detector.alerts ≡ spikes (float64 1) (2 ∷ 1 ∷ []))
    × All IsAlert (watch moments (unwatched idle)).detector.alerts
    × ((watch moments (unwatched idle)).detector ≡ run (signals_of 0 moments) new_detector)
    × (sum (arrivals 0 0 moments) ≤ named moments)
alerts-watch_example =
    alerts-watch moments idle 1 1 (2 ∷ 1 ∷ []) moments-arrivals (omega arith) moments_small
