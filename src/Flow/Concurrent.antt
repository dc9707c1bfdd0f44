-- ===== src/Flow/Concurrent.antt =====
-- From requests at once to services/gateway, over the partitions of the topic, to the answer of
-- /leaderboard.
use Prim.Native.Nat.{◌^◌}
use nex_pulse.Base.{ℕ, ◌≡◌, ◌<◌, refl, ap, Bool, true, Option, some, List, [], map, length, arith}
use nex_pulse.Base.Interleaving.{Interleaves}
use nex_pulse.Base.Slices.{ℤ, pos}
use nex_pulse.Text.{Text, codes}
use nex_pulse.Gateway.Ingest.{Event, Answers, Gateway}
use nex_pulse.Gateway.Concurrent.{Operation, perform_all, operations}
use nex_pulse.Aggregator.{Command, Aggregator, consume_all}
use nex_pulse.Aggregator.Leaderboard.{score, leaderboard, score-consume_all}
use nex_pulse.Flow.{deliver, credited-deliver}
use nex_pulse.Query.Leaderboard.{Entry, handle_leaderboard}
use nex_pulse.Query.Leaderboard.Top.{IsTop, IsRanking, reading, zrevrange-IsTop}
use nex_pulse.Flow.Accepted.{accepted_count, accepted_count_le}
use nex_pulse.Flow.Topic.{read-NamesKey, keyed-read}

module _ {Bytes : Type 0} (marshal : Event → Bytes) (unmarshal : Bytes → Option Event)
    (decodes : (event : Event) → unmarshal (marshal event) ≡ some event)
    (zrevrange : List (List Command × Bool) → Text → ℤ → ℤ → List Entry)
    (ranking : IsRanking zrevrange) where
  -- The pipelines of an aggregator that reads these messages.
  abbrev pub executed_of : List (Text × Event) → Aggregator → List (List Command × Bool)
  executed_of read a = (consume_all (deliver marshal unmarshal decodes read) a).pipelines

  module _ (requests : List Answers) {trace : List Operation} (g : Gateway) (a : Aggregator)
      {parts : List (List (Text × Event))} {read : List (Text × Event)}
      (at_once : Interleaves (map operations requests) trace) (empty : g.queue ≡ [])
      (fresh : a.pipelines ≡ []) (stored : Interleaves parts (perform_all trace g).queue)
      (consumed : Interleaves parts read) where
    score-executed_of :
        (user : Text) → score leaderboard user (executed_of read a) ≡ accepted_count user requests
    unfolding score
    score-executed_of user = omega (
      arith,
      score-consume_all user (deliver marshal unmarshal decodes read) a,
      ap (score leaderboard user) fresh,
      credited-deliver marshal unmarshal decodes user read
          (read-NamesKey requests g at_once empty stored consumed),
      keyed-read requests g at_once empty stored consumed user,
    )

    -- If json.Unmarshal decodes what json.Marshal encodes, Redis has the documented ZREVRANGE, the queue
    -- and the leaderboard start empty, there are fewer than 2^53 requests, each pipeline
    -- is run once and succeeds, and so does the reading: then in whatever order the operations of the requests come, over whatever partitions the
    -- messages are spread, and in whatever order these are read, the answer of the leaderboard is 200 with
    -- the first ten users by the number of their accepted requests.
    pub handle_leaderboard-Interleaves :
        (redis_errors : ℕ)
        → length requests < 2 ^ 53
        → (handle_leaderboard (reading zrevrange ranking (executed_of read a) true) redis_errors ≡ (
          200,
          some (zrevrange (executed_of read a) leaderboard (pos 0) (pos 9)),
          redis_errors,
        ))
          × IsTop 10
              (λ user. accepted_count user requests)
              (zrevrange (executed_of read a) leaderboard (pos 0) (pos 9))
    unfolding handle_leaderboard codes
    handle_leaderboard-Interleaves redis_errors few = (
      refl,
      zrevrange-IsTop zrevrange ranking 9 (executed_of read a) leaderboard
          (λ user. accepted_count user requests) score-executed_of
          (λ user. omega (arith, accepted_count_le user requests, few)),
    )
