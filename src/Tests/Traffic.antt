-- ===== src/Tests/Traffic.antt =====
-- The simulator on concrete rates and events.
use nex_pulse.Base.{◌+◌, ◌≡◌, refl, ap, true, false, Option, none, some, List, [], ◌∷◌, map, arith}
use nex_pulse.Base.Slices.{pos}
use nex_pulse.Json.{Json, int, float}
use nex_pulse.Gateway.Ingest.{Event, Answers, Gateway}
use nex_pulse.Flow.{handle_all, keyed}
use nex_pulse.Simulator.{quotient, split}
use nex_pulse.Simulator.Worker.{interval}
use nex_pulse.Simulator.Worker.Pace.{offered, Paced, offered-split}
use nex_pulse.Simulator.Worker.Events.{
  Attempt, user_key, sent_event, ask, Binds, count, handle_all-simulated,
}

-- 7 events per second, with an interval that is not exact.
seventh : interval (pos 7) ≡ some 142857142
unfolding interval quotient
seventh = refl

-- From 1000000001 events per second on, a worker panics.
no_interval : offered (split (pos 1000000001) (pos 1)) ≡ none
unfolding split interval quotient
no_interval = refl

offered-split_example : Paced 100 7 (offered (split (pos 100) (pos 7)))
offered-split_example = offered-split 100 7 (omega arith) (omega arith) (omega arith)

abbrev lets_through : Answers
lets_through = record { bound = none; allowed = some true; marshals = true; writes = true }

abbrev refuses : Answers
refuses = record { bound = none; allowed = some false; marshals = true; writes = true }

-- Two events of the user 12, of which one is refused, and one of the user 3.
abbrev attempts : List Attempt
attempts =
    record { user = 12; index = 0; time = 5; answers = lets_through }
    ∷ record { user = 3; index = 2; time = 5; answers = lets_through }
    ∷ record { user = 12; index = 1; time = 6; answers = refuses }
    ∷ []

abbrev unused : Gateway
unused = record {
  active_connections = 0;
  durations = 0;
  bad_request = 0;
  missing_user_id = 0;
  rate_limit = 0;
  kafka_error = 0;
  rate_limit_hits = 0;
  events_ingested = 0;
  produce_durations = 0;
  pings = 0;
  queue = [];
}

one_of_twelve : count 12 attempts ≡ 1
unfolding count
one_of_twelve = refl

-- A decoding that gives whole numbers back as floats.
abbrev as_float : Option Json → Option Json
as_float (some (int n)) = some (float n 0)
as_float o = o

abbrev decode : Event → Option Event
decode e = some (λ key. as_float (e key))

decode-Binds : (t : Attempt) → Binds decode (sent_event t)
decode-Binds t = record {
  event = λ key. as_float (sent_event t key);
  decoded = refl;
  strings = λ key s h. ap as_float h;
}

handle_all-simulated_example :
    (keyed (user_key 12) (handle_all (map (ask decode decode-Binds) attempts) unused).queue
      ≡ keyed (user_key 12) [] + count 12 attempts)
    × ((handle_all (map (ask decode decode-Binds) attempts) unused).bad_request ≡ 0)
    × ((handle_all (map (ask decode decode-Binds) attempts) unused).missing_user_id ≡ 0)
handle_all-simulated_example = handle_all-simulated decode decode-Binds attempts 12 unused
