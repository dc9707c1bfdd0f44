-- ===== src/Flow/Rounds.antt =====
-- The loop of services/aggregator in rounds that may fail, between requests at once to services/gateway
-- and the answer of /leaderboard.
use Prim.Native.Nat.{◌^◌}
use nex_pulse.Base.{
  ℕ, ◌+◌, ◌-◌, ◌≡◌, ◌<◌, refl, ap, Bool, true, Option, some, List, [], ◌∷◌, map, All, if◌then◌else◌,
  arith,
}
use nex_pulse.Base.Interleaving.{Interleaves}
use nex_pulse.Base.Slices.{ℤ, pos}
use nex_pulse.Text.{Text, codes, same}
use nex_pulse.Gateway.Ingest.{Event, Answers, Gateway, as_string}
use nex_pulse.Gateway.Concurrent.{Operation, perform_all, operations}
use nex_pulse.Aggregator.{
  Command, Outcome, once, Message, read_error, parsed, Aggregator, consume, consume_all,
}
use nex_pulse.Aggregator.Leaderboard.{is_by, credited, score, leaderboard, score-consume_all}
use nex_pulse.Flow.{keyed, NamesKey, received}
use nex_pulse.Flow.Accepted.{accepted_count}
use nex_pulse.Flow.Topic.{read-NamesKey, keyed-read}
use nex_pulse.Query.Leaderboard.{Entry, handle_leaderboard}
use nex_pulse.Query.Leaderboard.Top.{IsTop, IsRanking, reading, zrevrange-IsTop}

-- A round of the loop: ReadMessage fails, or it gives the next message, with the outcome of its
-- pipeline.
pub data Round : Type 0 where
  fails : Round
  reads : Outcome → Round

-- How often the messages of a user are ranked.
unfoldable pub counted : Text → List Round → List (Text × Event) → ℕ
unfolding same
counted user [] ms = 0
counted user (fails ∷ rounds) ms = counted user rounds ms
counted user (reads o ∷ rounds) [] = 0
counted user (reads o ∷ rounds) ((key, event) ∷ ms) =
    (if same key user then o.ranks else 0) + counted user rounds ms

-- Those of a user that are not ranked, or not read.
unfoldable pub missed : Text → List Round → List (Text × Event) → ℕ
unfolding same keyed
missed user [] ms = keyed user ms
missed user (fails ∷ rounds) ms = missed user rounds ms
missed user (reads o ∷ rounds) [] = 0
missed user (reads o ∷ rounds) ((key, event) ∷ ms) =
    (if same key user then 1 - o.ranks else 0) + missed user rounds ms

-- How often those of a user are ranked once more.
unfoldable pub again : Text → List Round → List (Text × Event) → ℕ
unfolding same
again user [] ms = 0
again user (fails ∷ rounds) ms = again user rounds ms
again user (reads o ∷ rounds) [] = 0
again user (reads o ∷ rounds) ((key, event) ∷ ms) =
    (if same key user then o.ranks - 1 else 0) + again user rounds ms

-- The pipelines that return an error.
unfoldable pub failed : List Round → List (Text × Event) → ℕ
failed [] ms = 0
failed (fails ∷ rounds) ms = failed rounds ms
failed (reads o ∷ rounds) [] = 0
failed (reads o ∷ rounds) (m ∷ ms) = (if o.ok then 0 else 1) + failed rounds ms

counted-missed :
    (user : Text) (rounds : List Round) (ms : List (Text × Event))
    → counted user rounds ms + missed user rounds ms ≡ keyed user ms + again user rounds ms
unfolding counted missed again keyed
counted-missed user [] ms = omega arith
counted-missed user (fails ∷ rounds) ms = counted-missed user rounds ms
counted-missed user (reads o ∷ rounds) [] = refl
counted-missed user (reads o ∷ rounds) ((key, event) ∷ ms) =
    let rest = counted-missed user rounds ms in ground arith

-- The encoding of the messages is encoding/json's, which decodes what it encodes.
module _ {Bytes : Type 0} (marshal : Event → Bytes) (unmarshal : Bytes → Option Event)
    (decodes : (event : Event) → unmarshal (marshal event) ≡ some event) where
  -- What the rounds read and execute. A ReadMessage without a message blocks.
  abbrev pub fetch : List Round → List (Text × Event) → List (Message × Outcome)
  fetch [] ms = []
  fetch (fails ∷ rounds) ms = (read_error, once) ∷ fetch rounds ms
  fetch (reads o ∷ rounds) [] = []
  fetch (reads o ∷ rounds) ((key, event) ∷ ms) =
      (received (unmarshal (marshal event)), o) ∷ fetch rounds ms

  credited-fetch :
      (user : Text) (rounds : List Round) (ms : List (Text × Event))
      → All NamesKey ms
      → credited user (fetch rounds ms) ≡ counted user rounds ms
  unfolding credited counted is_by as_string
  credited-fetch user [] ms k = refl
  credited-fetch user (fails ∷ rounds) ms k = credited-fetch user rounds ms k
  credited-fetch user (reads o ∷ rounds) [] k = refl
  credited-fetch user (reads o ∷ rounds) ((key, event) ∷ ms) k =
      let rest = credited-fetch user rounds ms k.1 in
      rw (decodes event, k.0) (ap (λ n. (if same key user then o.ranks else 0) + n) rest)

  redis_errors-fetch :
      (rounds : List Round) (ms : List (Text × Event)) (a : Aggregator)
      → (consume_all (fetch rounds ms) a).redis_errors ≡ a.redis_errors + failed rounds ms
  unfolding consume_all consume failed
  redis_errors-fetch [] ms a = omega arith
  redis_errors-fetch (fails ∷ rounds) ms a = redis_errors-fetch rounds ms a
  redis_errors-fetch (reads o ∷ rounds) [] a = omega arith
  redis_errors-fetch (reads o ∷ rounds) ((key, event) ∷ ms) a =
      let rest = redis_errors-fetch rounds ms (consume (parsed event) o a) in
      rw (decodes event) (ground arith)

  module _ (zrevrange : List (List Command × Bool) → Text → ℤ → ℤ → List Entry)
      (ranking : IsRanking zrevrange) (requests : List Answers) {trace : List Operation}
      (rounds : List Round) (g : Gateway) (a : Aggregator) {parts : List (List (Text × Event))}
      {read : List (Text × Event)} (at_once : Interleaves (map operations requests) trace)
      (empty : g.queue ≡ []) (fresh : a.pipelines ≡ [])
      (stored : Interleaves parts (perform_all trace g).queue)
      (consumed : Interleaves parts read) where
    score-fetch :
        (user : Text)
        → score leaderboard user (consume_all (fetch rounds read) a).pipelines
          ≡ counted user rounds read
    unfolding score
    score-fetch user = omega (
      arith,
      score-consume_all user (fetch rounds read) a,
      ap (score leaderboard user) fresh,
      credited-fetch user rounds read (read-NamesKey requests g at_once empty stored consumed),
    )

    counted-accepted :
        (user : Text)
        → counted user rounds read + missed user rounds read
          ≡ accepted_count user requests + again user rounds read
    counted-accepted user = omega (
      arith,
      counted-missed user rounds read,
      keyed-read requests g at_once empty stored consumed user,
    )

    -- If json.Unmarshal decodes what json.Marshal encodes, Redis has the documented ZREVRANGE, the
    -- queue and the leaderboard start empty, and the reading of the leaderboard succeeds: then in
    -- whatever order the operations of the requests come and the messages are spread and read,
    -- whichever reads and pipelines of the loop return an error, and however often the commands of each
    -- pipeline are run, if no user is ranked 2^53 times or more, the answer is 200 with the first ten
    -- users by the number of times that their messages are ranked; with the messages that are not
    -- ranked or not yet read, and but for the times that a message is ranked once more, these are the
    -- accepted requests of a user; and the aggregator has counted an error for each pipeline that
    -- returns one.
    pub handle_leaderboard-fetch :
        (redis_errors : ℕ)
        → ((user : Text) → counted user rounds read < 2 ^ 53)
        → (handle_leaderboard
              (reading zrevrange ranking (consume_all (fetch rounds read) a).pipelines true)
              redis_errors
            ≡ (
              200,
              some (
                  zrevrange
                    (consume_all (fetch rounds read) a).pipelines
                    leaderboard
                    (pos 0)
                    (pos 9)),
              redis_errors,
            ))
          × IsTop 10
              (λ user. counted user rounds read)
              (zrevrange (consume_all (fetch rounds read) a).pipelines leaderboard (pos 0) (pos 9))
          × ((user : Text)
              → counted user rounds read + missed user rounds read
                ≡ accepted_count user requests + again user rounds read)
          × ((consume_all (fetch rounds read) a).redis_errors ≡ a.redis_errors + failed rounds read)
    unfolding handle_leaderboard codes
    handle_leaderboard-fetch redis_errors few = (
      refl,
      zrevrange-IsTop zrevrange ranking 9 (consume_all (fetch rounds read) a).pipelines leaderboard
          (λ user. counted user rounds read) score-fetch few,
      counted-accepted,
      redis_errors-fetch rounds read a,
    )
