-- ===== src/Flow/Ranking.antt =====
-- From the requests to services/gateway to the answer of /leaderboard of services/query.
use Prim.Native.Nat.{◌^◌}
use nex_pulse.Base.{
  ℕ, ◌+◌, ◌≡◌, ◌≤◌, ◌<◌, refl, ap, Bool, true, Option, some, List, [], ◌∷◌, length, arith,
}
use nex_pulse.Base.Slices.{ℤ, pos}
use nex_pulse.Text.{Text, codes}
use nex_pulse.Gateway.Ingest.{Event, Answers, Gateway}
use nex_pulse.Aggregator.{Command, Aggregator, consume_all}
use nex_pulse.Aggregator.Leaderboard.{score, leaderboard}
use nex_pulse.Flow.{handle_all, keyed, deliver, score-handle_all}
use nex_pulse.Query.Leaderboard.{Entry, handle_leaderboard}
use nex_pulse.Query.Leaderboard.Top.{IsTop, IsRanking, reading, zrevrange-IsTop}

keyed_le : (user : Text) (ms : List (Text × Event)) → keyed user ms ≤ length ms
unfolding keyed
keyed_le user [] = omega arith
keyed_le user ((key, event) ∷ ms) = let rest = keyed_le user ms in ground arith

module _ {Bytes : Type 0} (marshal : Event → Bytes) (unmarshal : Bytes → Option Event)
    (decodes : (event : Event) → unmarshal (marshal event) ≡ some event)
    (zrevrange : List (List Command × Bool) → Text → ℤ → ℤ → List Entry)
    (ranking : IsRanking zrevrange) where
  -- The pipelines of an aggregator that reads all messages of the queue.
  abbrev pub executed : Gateway → Aggregator → List (List Command × Bool)
  executed g a = (consume_all (deliver marshal unmarshal decodes g.queue) a).pipelines

  score-executed :
      (requests : List Answers) (g : Gateway) (a : Aggregator)
      → g.queue ≡ []
      → a.pipelines ≡ []
      → (user : Text)
      → score leaderboard user (executed (handle_all requests g) a)
        ≡ keyed user (handle_all requests g).queue
  unfolding score
  score-executed requests g a empty fresh user = omega (
    arith,
    (score-handle_all marshal unmarshal decodes user requests g a empty).0,
    ap (score leaderboard user) fresh,
  )

  -- If json.Unmarshal decodes what json.Marshal encodes, Redis has the documented ZREVRANGE, the
  -- queue and the leaderboard start empty, fewer than 2^53 messages are written, each pipeline
  -- is run once and succeeds, and so does the reading: then the answer of the leaderboard is 200 with the first ten
  -- users by the number of their messages that the gateway wrote, which are as many as the events
  -- it counted as ingested.
  handle_leaderboard-handle_all :
      (requests : List Answers) (g : Gateway) (a : Aggregator) (redis_errors : ℕ)
      → g.queue ≡ []
      → a.pipelines ≡ []
      → length (handle_all requests g).queue < 2 ^ 53
      → (handle_leaderboard
            (reading zrevrange ranking (executed (handle_all requests g) a) true)
            redis_errors
          ≡ (
            200,
            some (zrevrange (executed (handle_all requests g) a) leaderboard (pos 0) (pos 9)),
            redis_errors,
          ))
        × IsTop 10
            (λ user. keyed user (handle_all requests g).queue)
            (zrevrange (executed (handle_all requests g) a) leaderboard (pos 0) (pos 9))
        × (g.events_ingested + length (handle_all requests g).queue
            ≡ (handle_all requests g).events_ingested)
  unfolding handle_leaderboard codes
  handle_leaderboard-handle_all requests g a redis_errors empty fresh few =
      let queue = (handle_all requests g).queue in
      (
        refl,
        zrevrange-IsTop zrevrange ranking 9 (executed (handle_all requests g) a) leaderboard
            (λ user. keyed user queue) (score-executed requests g a empty fresh)
            (λ user. omega (arith, keyed_le user queue, few)),
        (score-handle_all marshal unmarshal decodes leaderboard requests g a empty).1,
      )
