-- ===== src/Tests/Concurrent.antt =====
-- Two requests at once: one is no JSON, the other one an event of the user "7".
use nex_pulse.Base.{◌≡◌, refl, Bool, arith, true, none, some, [], ◌∷◌, map, List}
use nex_pulse.Base.Interleaving.{Interleaves, finished, steps}
use nex_pulse.Text.{Text, codes, same}
use nex_pulse.Json.{str}
use nex_pulse.Gateway.Ingest.{Event, Answers, Gateway, as_string}
use nex_pulse.Gateway.Concurrent.{
  Operation, connect, disconnect, observe, reject_json, ping, enqueue, time_write, ingest,
  perform_all, operations,
}
use nex_pulse.Gateway.Concurrent.Gauge.{IsSafe}
use nex_pulse.Gateway.Concurrent.Agreement.{Agrees, Agrees-Interleaves}
use nex_pulse.Flow.{handle_all}
use nex_pulse.Base.Slices.{pos}
use nex_pulse.Aggregator.{Command, Aggregator}
use nex_pulse.Aggregator.Leaderboard.{leaderboard}
use nex_pulse.Query.Leaderboard.{handle_leaderboard}
use nex_pulse.Query.Leaderboard.Top.{IsTop, reading}
use nex_pulse.Flow.Accepted.{accepts, accepted_count}
use nex_pulse.Flow.Concurrent.{executed_of, handle_leaderboard-Interleaves}
use nex_pulse.Tests.SortedSet.{zrevrange, zrevrange-IsRanking}

abbrev pub of_seven : Event
of_seven _ = some (str (codes "7"))

abbrev no_json : Answers
no_json = record { bound = none; allowed = some true; marshals = true; writes = true }

abbrev pub event : Answers
event = record { bound = some of_seven; allowed = some true; marshals = true; writes = true }

-- What is left of the second request after its gauge went up, and from its write on.
abbrev pub writing : List Operation
writing = time_write ∷ ingest ∷ observe ∷ disconnect ∷ []

abbrev opened : List Operation
opened = ping ∷ enqueue (codes "7") of_seven ∷ writing

abbrev trace : List Operation
trace =
    connect
    ∷ connect
    ∷ ping
    ∷ reject_json
    ∷ enqueue (codes "7") of_seven
    ∷ observe
    ∷ time_write
    ∷ ingest
    ∷ disconnect
    ∷ observe
    ∷ disconnect
    ∷ []

trace-Interleaves : Interleaves (map operations (no_json ∷ event ∷ [])) trace
unfolding operations codes
trace-Interleaves =
    steps [] connect (reject_json ∷ observe ∷ disconnect ∷ []) ((connect ∷ opened) ∷ []) (
      steps ((reject_json ∷ observe ∷ disconnect ∷ []) ∷ []) connect opened [] (
        steps ((reject_json ∷ observe ∷ disconnect ∷ []) ∷ []) ping
          (enqueue (codes "7") of_seven ∷ writing) []
          (steps [] reject_json (observe ∷ disconnect ∷ [])
            ((enqueue (codes "7") of_seven ∷ writing) ∷ [])
            (steps ((observe ∷ disconnect ∷ []) ∷ []) (enqueue (codes "7") of_seven) writing [] (
              steps [] observe (disconnect ∷ []) (writing ∷ []) (
                steps ((disconnect ∷ []) ∷ []) time_write (ingest ∷ observe ∷ disconnect ∷ []) [] (
                  steps ((disconnect ∷ []) ∷ []) ingest (observe ∷ disconnect ∷ []) [] (
                    steps [] disconnect [] ((observe ∷ disconnect ∷ []) ∷ []) (
                      steps ([] ∷ []) observe (disconnect ∷ []) [] (
                        steps ([] ∷ []) disconnect [] []
                          (finished ([] ∷ [] ∷ []) (refl, (refl, tt)))))))))))))

abbrev idle : Gateway
idle = record {
  active_connections = 0;
  durations = 5;
  bad_request = 0;
  missing_user_id = 1;
  rate_limit = 0;
  kafka_error = 0;
  rate_limit_hits = 0;
  events_ingested = 4;
  produce_durations = 4;
  pings = 4;
  queue = [];
}

one_each :
    ((perform_all trace idle).bad_request ≡ 1) × ((perform_all trace idle).events_ingested ≡ 5)
unfolding perform_all
one_each = (refl, refl)

Agrees-Interleaves_example :
    IsSafe 0 trace × Agrees (perform_all trace idle) (handle_all (no_json ∷ event ∷ []) idle)
Agrees-Interleaves_example = Agrees-Interleaves (no_json ∷ event ∷ []) idle trace-Interleaves

-- The message of the second request, in the first of two partitions.
abbrev parts : List (List (Text × Event))
parts = ((codes "7", of_seven) ∷ []) ∷ [] ∷ []

abbrev pub first_start : Gateway
first_start = record idle { events_ingested = 0 }

parts-Interleaves : Interleaves parts (perform_all trace first_start).queue
unfolding perform_all codes
parts-Interleaves =
    steps [] (codes "7", of_seven) [] ([] ∷ []) (finished ([] ∷ [] ∷ []) (refl, (refl, tt)))

read-Interleaves : Interleaves parts ((codes "7", of_seven) ∷ [])
read-Interleaves =
    steps [] (codes "7", of_seven) [] ([] ∷ []) (finished ([] ∷ [] ∷ []) (refl, (refl, tt)))

abbrev pub unread : Aggregator
unread = record { consumed = 0; processed = 0; redis_errors = 0; durations = 0; pipelines = [] }

one_accepted : accepted_count (codes "7") (no_json ∷ event ∷ []) ≡ 1
unfolding accepted_count accepts as_string same codes
one_accepted = refl

abbrev after_reading : List (List Command × Bool)
after_reading =
    executed_of (λ e. e) some (λ e. refl) zrevrange zrevrange-IsRanking ((codes "7", of_seven) ∷ [])
      unread

handle_leaderboard-Interleaves_example :
    (handle_leaderboard (reading zrevrange zrevrange-IsRanking after_reading true) 4
      ≡ (200, some (zrevrange after_reading leaderboard (pos 0) (pos 9)), 4))
    × IsTop 10
        (λ user. accepted_count user (no_json ∷ event ∷ []))
        (zrevrange after_reading leaderboard (pos 0) (pos 9))
handle_leaderboard-Interleaves_example =
    handle_leaderboard-Interleaves (λ e. e) some (λ e. refl) zrevrange zrevrange-IsRanking
      (no_json ∷ event ∷ []) first_start unread trace-Interleaves refl refl parts-Interleaves
      read-Interleaves 4 (omega arith)
