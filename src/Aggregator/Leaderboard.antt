-- ===== src/Aggregator/Leaderboard.antt =====
-- What the loop of the aggregator adds to the leaderboard, and how its counters add up.
use nex_pulse.Base.{
  ℕ, zero, suc, ◌+◌, ◌≡◌, refl, Bool, false, ◌&&◌, Option, none, some, List, [], ◌∷◌, ◌++◌,
  if◌then◌else◌, arith,
}
use nex_pulse.Text.{Text, codes, same}
use nex_pulse.Gateway.Ingest.{Event, as_string}
use nex_pulse.Aggregator.{
  Command, incr, zincrby, Outcome, repeated, Message, read_error, unparsed, parsed, Aggregator,
  count_type, count_user, pipeline, consume, consume_all,
}

-- What one pipeline adds to the score of a user in a sorted set.
unfoldable pub added : Text → Text → List Command → ℕ
unfolding same
added key user [] = 0
added key user (incr k ∷ cs) = added key user cs
added key user (zincrby k n u ∷ cs) =
    (if same k key && same u user then n else 0) + added key user cs

-- The score of a user in a sorted set after what was run of the pipelines.
unfoldable pub score : Text → Text → List (List Command × Bool) → ℕ
unfolding added
score key user [] = 0
score key user ((cs, ok) ∷ ps) = added key user cs + score key user ps

-- Whether the event names the user.
unfoldable pub is_by : Text → Option Text → Bool
unfolding same
is_by user none = false
is_by user (some u) = same u user

-- How often the events of the user were ranked.
unfoldable pub credited : Text → List (Message × Outcome) → ℕ
unfolding is_by as_string
credited user [] = 0
credited user ((parsed event, o) ∷ ms) =
    (if is_by user (as_string (event "user_id")) then o.ranks else 0) + credited user ms
credited user (_ ∷ ms) = credited user ms

abbrev pub leaderboard : Text
leaderboard = codes "leaderboard:users"

added-append :
    (key user : Text) (cs ds : List Command)
    → added key user (cs ++ ds) ≡ added key user cs + added key user ds
unfolding added
added-append key user [] ds = omega arith
added-append key user (incr k ∷ cs) ds = added-append key user cs ds
added-append key user (zincrby k n u ∷ cs) ds = omega (arith, added-append key user cs ds)

added-count_type : (key user : Text) (o : Option Text) → added key user (count_type o) ≡ 0
unfolding added count_type
added-count_type key user none = refl
added-count_type key user (some t) = refl

added-count_user :
    (user : Text) (o : Option Text)
    → added leaderboard user (count_user o) ≡ (if is_by user o then 1 else 0)
unfolding added count_user is_by codes
added-count_user user none = refl
added-count_user user (some t) = ground arith

none_added :
    (key user : Text) (n : ℕ) (cs : List Command)
    → added key user cs ≡ 0
    → added key user (repeated n cs) ≡ 0
unfolding repeated added
none_added key user zero cs h = refl
none_added key user (suc n) cs h =
    omega (arith, added-append key user cs (repeated n cs), none_added key user n cs h, h)

added-repeated :
    (user : Text) (n : ℕ) (o : Option Text)
    → added leaderboard user (repeated n (count_user o)) ≡ (if is_by user o then n else 0)
unfolding repeated added
added-repeated user zero o = ground arith
added-repeated user (suc n) o =
    let more = added-append leaderboard user (count_user o) (repeated n (count_user o)) in
    let one = added-count_user user o in let rest = added-repeated user n o in ground arith

added-pipeline :
    (user : Text) (o : Outcome) (event : Event)
    → added leaderboard user (pipeline o event)
      ≡ (if is_by user (as_string (event "user_id")) then o.ranks else 0)
unfolding pipeline
added-pipeline user o event =
    let types = count_type (as_string (event "event_type")) in
    let users = count_user (as_string (event "user_id")) in
    omega (
      arith,
      added-append leaderboard user (repeated o.counts types) (repeated o.ranks users),
      none_added leaderboard user o.counts types
          (added-count_type leaderboard user (as_string (event "event_type"))),
      added-repeated user o.ranks (as_string (event "user_id")),
    )

-- Whatever messages are read, whichever pipelines return an error, and whatever was run of these, the
-- score of a user in the leaderboard grows by the number of times that the ZINCRBY of an event of the
-- user was run.
pub score-consume_all :
    (user : Text) (messages : List (Message × Outcome)) (a : Aggregator)
    → score leaderboard user (consume_all messages a).pipelines
      ≡ score leaderboard user a.pipelines + credited user messages
unfolding consume_all consume score credited
score-consume_all user [] a = omega arith
score-consume_all user ((read_error, o) ∷ ms) a = score-consume_all user ms a
score-consume_all user ((unparsed, o) ∷ ms) a =
    score-consume_all user ms (record a { consumed = a.consumed + 1 })
score-consume_all user ((parsed event, o) ∷ ms) a =
    omega
      (arith, added-pipeline user o event, score-consume_all user ms (consume (parsed event) o a))
