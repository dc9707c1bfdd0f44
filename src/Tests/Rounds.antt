-- ===== src/Tests/Rounds.antt =====
-- Requests of the users "7" and "8" at once, and rounds of the aggregator that fail.
use Prim.Native.Nat.{◌^◌}
use nex_pulse.Base.{◌+◌, ◌≡◌, ◌<◌, refl, true, false, none, some, [], ◌∷◌, map, List, arith}
use nex_pulse.Base.Interleaving.{Interleaves, finished, steps}
use nex_pulse.Base.Slices.{pos}
use nex_pulse.Text.{Text, codes}
use nex_pulse.Json.{str}
use nex_pulse.Gateway.Ingest.{Event, Answers}
use nex_pulse.Gateway.Concurrent.{
  Operation, connect, disconnect, observe, ping, enqueue, time_write, ingest, perform_all,
  operations,
}
use nex_pulse.Aggregator.{Outcome, Aggregator, consume_all}
use nex_pulse.Aggregator.Leaderboard.{leaderboard}
use nex_pulse.Query.Leaderboard.{handle_leaderboard}
use nex_pulse.Query.Leaderboard.Top.{IsTop, reading}
use nex_pulse.Flow.Accepted.{accepted_count}
use nex_pulse.Flow.Rounds.{
  Round, fails, reads, counted, missed, again, failed, fetch, handle_leaderboard-fetch,
}
use nex_pulse.Tests.Concurrent.{of_seven, event, writing, first_start, unread}
use nex_pulse.Tests.SortedSet.{zrevrange, zrevrange-IsRanking}

abbrev of_eight : Event
of_eight _ = some (str (codes "8"))

abbrev other_event : Answers
other_event = record { bound = some of_eight; allowed = none; marshals = true; writes = true }

abbrev seven : List Operation
seven = enqueue (codes "7") of_seven ∷ writing

abbrev eight : List Operation
eight = enqueue (codes "8") of_eight ∷ writing

-- The second request writes first.
abbrev trace : List Operation
trace =
    connect
    ∷ connect
    ∷ ping
    ∷ ping
    ∷ enqueue (codes "8") of_eight
    ∷ enqueue (codes "7") of_seven
    ∷ time_write
    ∷ ingest
    ∷ observe
    ∷ disconnect
    ∷ writing

-- The rest of the first request, and then the rest of the second one.
in_turn :
    Interleaves (writing ∷ writing ∷ []) (time_write ∷ ingest ∷ observe ∷ disconnect ∷ writing)
in_turn = steps [] time_write (ingest ∷ observe ∷ disconnect ∷ []) (writing ∷ []) (
    steps [] ingest (observe ∷ disconnect ∷ []) (writing ∷ []) (
      steps [] observe (disconnect ∷ []) (writing ∷ []) (
        steps [] disconnect [] (writing ∷ []) (
          steps ([] ∷ []) time_write (ingest ∷ observe ∷ disconnect ∷ []) [] (
            steps ([] ∷ []) ingest (observe ∷ disconnect ∷ []) [] (
              steps ([] ∷ []) observe (disconnect ∷ []) [] (
                steps ([] ∷ []) disconnect [] [] (finished ([] ∷ [] ∷ []) (refl, (refl, tt))))))))))

trace-Interleaves : Interleaves (map operations (event ∷ other_event ∷ [])) trace
unfolding operations codes
trace-Interleaves = steps [] connect (ping ∷ seven) ((connect ∷ ping ∷ eight) ∷ []) (
    steps ((ping ∷ seven) ∷ []) connect (ping ∷ eight) [] (
      steps [] ping seven ((ping ∷ eight) ∷ []) (
        steps (seven ∷ []) ping eight [] (
          steps (seven ∷ []) (enqueue (codes "8") of_eight) writing []
            (steps [] (enqueue (codes "7") of_seven) writing (writing ∷ []) in_turn)))))

-- The users are in two partitions.
abbrev parts : List (List (Text × Event))
parts = ((codes "7", of_seven) ∷ []) ∷ ((codes "8", of_eight) ∷ []) ∷ []

parts-Interleaves : Interleaves parts (perform_all trace first_start).queue
unfolding perform_all codes
parts-Interleaves =
    steps (((codes "7", of_seven) ∷ []) ∷ []) (codes "8", of_eight) [] []
      (steps [] (codes "7", of_seven) [] ([] ∷ []) (finished ([] ∷ [] ∷ []) (refl, (refl, tt))))

abbrev read : List (Text × Event)
read = (codes "7", of_seven) ∷ (codes "8", of_eight) ∷ []

read-Interleaves : Interleaves parts read
read-Interleaves =
    steps [] (codes "7", of_seven) [] (((codes "8", of_eight) ∷ []) ∷ [])
      (steps ([] ∷ []) (codes "8", of_eight) [] [] (finished ([] ∷ [] ∷ []) (refl, (refl, tt))))

-- A read fails; the first message is ranked twice, as the pipeline is sent again; the second one not.
abbrev twice : Outcome
twice = record { ok = true; counts = 1; ranks = 2 }

abbrev lost : Outcome
lost = record { ok = false; counts = 1; ranks = 0 }

abbrev rounds : List Round
rounds = fails ∷ reads twice ∷ reads lost ∷ []

two_counted :
    (counted (codes "7") rounds read ≡ 2)
    × (again (codes "7") rounds read ≡ 1)
    × (counted (codes "8") rounds read ≡ 0)
    × (missed (codes "8") rounds read ≡ 1)
unfolding counted missed again codes
two_counted = (refl, refl, refl, refl)

few_counted : (user : Text) → counted user rounds read < 2 ^ 53
unfolding counted
few_counted user = ground arith

abbrev after_rounds : Aggregator
after_rounds = consume_all (fetch (λ e. e) some (λ e. refl) rounds read) unread

handle_leaderboard-fetch_example :
    (handle_leaderboard (reading zrevrange zrevrange-IsRanking after_rounds.pipelines true) 4
      ≡ (200, some (zrevrange after_rounds.pipelines leaderboard (pos 0) (pos 9)), 4))
    × IsTop 10
        (λ user. counted user rounds read)
        (zrevrange after_rounds.pipelines leaderboard (pos 0) (pos 9))
    × ((user : Text)
        → counted user rounds read + missed user rounds read
          ≡ accepted_count user (event ∷ other_event ∷ []) + again user rounds read)
    × (after_rounds.redis_errors ≡ unread.redis_errors + failed rounds read)
handle_leaderboard-fetch_example =
    handle_leaderboard-fetch (λ e. e) some (λ e. refl) zrevrange zrevrange-IsRanking
      (event ∷ other_event ∷ []) rounds first_start unread trace-Interleaves refl refl
      parts-Interleaves read-Interleaves 4 few_counted
