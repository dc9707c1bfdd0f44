-- ===== src/Tests/Ranking.antt =====
-- The leaderboard over a sorted set, on concrete events.
use Prim.Native.Nat.{◌^◌}
use nex_pulse.Base.{◌≡◌, ◌<◌, refl, Bool, true, false, none, some, List, [], ◌∷◌, arith}
use nex_pulse.Base.Slices.{pos}
use nex_pulse.Text.{Text, codes, same}
use nex_pulse.Json.{str}
use nex_pulse.Gateway.Ingest.{Event, Answers, Gateway, handle_ingest}
use nex_pulse.Flow.{handle_all}
use nex_pulse.Flow.Ranking.{executed}
use nex_pulse.Aggregator.{consume_all, Command, incr, zincrby, Aggregator}
use nex_pulse.Aggregator.Leaderboard.{added, score, leaderboard}
use nex_pulse.Query.Leaderboard.{handle_leaderboard}
use nex_pulse.Query.Leaderboard.Top.{IsTop, reading, handle_leaderboard-IsTop}
use nex_pulse.Tests.SortedSet.{insert, rank, zrevrange, zrevrange-IsRanking}

-- Two events of the user "b" and one of "a", and one of "a" whose pipeline failed
-- before its ZINCRBY.
abbrev three : List (List Command × Bool)
three =
    (zincrby (codes "leaderboard:users") 1 (codes "b") ∷ [], true)
    ∷ (incr (codes "agg:event_type:view") ∷ [], false)
    ∷ (zincrby (codes "leaderboard:users") 1 (codes "a") ∷ [], true)
    ∷ (zincrby (codes "leaderboard:users") 1 (codes "b") ∷ [], true)
    ∷ []

three_ranked : zrevrange three leaderboard (pos 0) (pos 9) ≡ (codes "b", 2) ∷ (codes "a", 1) ∷ []
unfolding zrevrange rank insert score codes
three_ranked = refl

three_small : (u : Text) → score leaderboard u three < 2 ^ 53
unfolding score added codes same
three_small u = ground arith

handle_leaderboard-IsTop_example :
    (handle_leaderboard (reading zrevrange zrevrange-IsRanking three false) 4 ≡ (500, none, 5))
    × (handle_leaderboard (reading zrevrange zrevrange-IsRanking three true) 4
        ≡ (200, some (zrevrange three leaderboard (pos 0) (pos 9)), 4))
    × IsTop 10 (λ u. score leaderboard u three) (zrevrange three leaderboard (pos 0) (pos 9))
handle_leaderboard-IsTop_example =
    handle_leaderboard-IsTop zrevrange zrevrange-IsRanking three 4 three_small

-- An event of the user "7" that is let through, a gateway that has handled nothing and an aggregator
-- that has read nothing.
abbrev of_seven : Event
of_seven _ = some (str (codes "7"))

abbrev request : Answers
request = record { bound = some of_seven; allowed = some true; marshals = true; writes = true }

abbrev started_gateway : Gateway
started_gateway = record {
  active_connections = 0;
  durations = 0;
  bad_request = 0;
  missing_user_id = 0;
  rate_limit = 0;
  kafka_error = 0;
  rate_limit_hits = 0;
  events_ingested = 0;
  produce_durations = 0;
  pings = 0;
  queue = [];
}

abbrev started_aggregator : Aggregator
started_aggregator = record {
  consumed = 0;
  processed = 0;
  redis_errors = 0;
  durations = 0;
  pipelines = [];
}

abbrev after_two : Gateway
after_two = handle_all (request ∷ request ∷ []) started_gateway

abbrev after_reading : List (List Command × Bool)
after_reading =
    executed (λ e. e) some (λ e. refl) zrevrange zrevrange-IsRanking after_two started_aggregator

seven_leads : zrevrange after_reading leaderboard (pos 0) (pos 9) ≡ (codes "7", 2) ∷ []
unfolding zrevrange rank insert score codes consume_all handle_all handle_ingest
seven_leads = refl
