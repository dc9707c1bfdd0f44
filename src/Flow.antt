-- ===== src/Flow.antt =====
-- From services/gateway through the topic to services/aggregator: the leaderboard of the events that
-- the gateway accepted.
pub mod Ranking
pub mod Accepted
pub mod Naming
pub mod Topic
pub mod Concurrent
pub mod Rounds
use mathlib.Core.Path.{subst}
use nex_pulse.Base.{
  ℕ, ◌+◌, ◌≡◌, refl, sym, ap, ◌∙◌, Bool, true, Option, none, some, List, [], ◌∷◌, length,
  length-append, if◌then◌else◌, All, All-append, arith,
}
use nex_pulse.Text.{Text, same}
use nex_pulse.Json.{str}
use nex_pulse.Gateway.Ingest.{Event, Answers, Gateway, as_string, handle_ingest}
use nex_pulse.Gateway.Accounting.{
  Counted, invalid, limited, broken, accepted, handle_ingest-Counted,
}
use nex_pulse.Aggregator.{Outcome, once, Message, unparsed, parsed, Aggregator, consume_all}
use nex_pulse.Aggregator.Leaderboard.{is_by, score, credited, leaderboard, score-consume_all}

-- The gateway after a list of requests.
unfoldable pub handle_all : List Answers → Gateway → Gateway
handle_all [] g = g
handle_all (a ∷ requests) g = handle_all requests (handle_ingest a g).1

-- How many messages have the user as their key.
unfoldable pub keyed : Text → List (Text × Event) → ℕ
unfolding same
keyed user [] = 0
keyed user ((key, event) ∷ ms) = (if same key user then 1 else 0) + keyed user ms

-- The key of a message is the user that its event names.
abbrev NamesKey : Text × Event → Type 0
NamesKey m = m.1 "user_id" ≡ some (str m.0)

-- The queue after requests, which names its keys, has grown by one message for each accepted event.
record Grown (g g' : Gateway) : Type 0 where
  names : All NamesKey g'.queue
  grows : length g'.queue + g.events_ingested ≡ length g.queue + g'.events_ingested

same_queue :
    {g g' : Gateway}
    → All NamesKey g.queue
    → g'.events_ingested ≡ g.events_ingested
    → g'.queue ≡ g.queue
    → Grown g g'
same_queue k i t = record {
  names = subst (All NamesKey) (sym t) k;
  grows = omega (arith, ap length t, i);
}

Counted-Grown :
    {g g' : Gateway} {status : ℕ} → All NamesKey g.queue → Counted g status g' → Grown g g'
Counted-Grown k (invalid _ i r p t) = same_queue k i t
Counted-Grown k (limited _ i r l p t) = same_queue k i t
Counted-Grown k (broken _ i r f p t) = same_queue k i t
Counted-Grown {g = g} k (accepted _ u e at full i r p t) = record {
  names = subst (All NamesKey) (sym t) (All-append NamesKey g.queue ((u, e) ∷ []) k (at, tt));
  grows = omega (arith, ap length t, length-append g.queue ((u, e) ∷ []), i);
}

handle_all-Grown :
    (requests : List Answers) (g : Gateway) → All NamesKey g.queue → Grown g (handle_all requests g)
unfolding handle_all
handle_all-Grown [] g k = record { names = k; grows = refl }
handle_all-Grown (a ∷ requests) g k =
    let one = Counted-Grown k (handle_ingest-Counted a g) in
    let rest = handle_all-Grown requests (handle_ingest a g).1 one.names in
    record { names = rest.names; grows = omega (arith, one.grows, rest.grows) }

-- What json.Unmarshal gives.
abbrev pub received : Option Event → Message
received none = unparsed
received (some event) = parsed event

-- The encoding of the messages is encoding/json's, which decodes what it encodes.
module _ {Bytes : Type 0} (marshal : Event → Bytes) (unmarshal : Bytes → Option Event)
    (decodes : (event : Event) → unmarshal (marshal event) ≡ some event) where
  -- The messages as the aggregator reads them, where every pipeline is run once and succeeds.
  abbrev pub deliver : List (Text × Event) → List (Message × Outcome)
  deliver [] = []
  deliver ((key, event) ∷ ms) = (received (unmarshal (marshal event)), once) ∷ deliver ms

  credited-deliver :
      (user : Text) (ms : List (Text × Event))
      → All NamesKey ms
      → credited user (deliver ms) ≡ keyed user ms
  unfolding credited keyed is_by as_string
  credited-deliver user [] k = refl
  credited-deliver user ((key, event) ∷ ms) k =
      let rest = credited-deliver user ms k.1 in
      rw (decodes event, k.0) (ap (λ n. (if same key user then 1 else 0) + n) rest)

  -- If json.Unmarshal decodes what json.Marshal encodes, the gateway starts with an empty queue and
  -- every pipeline is run once and succeeds, then after the aggregator has consumed the queue, the score of each
  -- user in the leaderboard has grown by the number of messages that are keyed by the user; and the
  -- messages are as many as the events that the gateway counted as ingested since.
  pub score-handle_all :
      (user : Text) (requests : List Answers) (g : Gateway) (a : Aggregator)
      → g.queue ≡ []
      → (score leaderboard user (consume_all (deliver (handle_all requests g).queue) a).pipelines
          ≡ score leaderboard user a.pipelines + keyed user (handle_all requests g).queue)
        × (g.events_ingested + length (handle_all requests g).queue
            ≡ (handle_all requests g).events_ingested)
  score-handle_all user requests g a empty =
      let grown = handle_all-Grown requests g (subst (All NamesKey) (sym empty) tt) in
      let queue = (handle_all requests g).queue in
      (
        score-consume_all user (deliver queue) a
            ∙ ap (λ n. score leaderboard user a.pipelines + n)
                (credited-deliver user queue grown.names),
        omega (arith, grown.grows, ap length empty),
      )
