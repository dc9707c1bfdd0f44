-- ===== src/Aggregator.antt =====
-- services/aggregator/main.go: the loop that consumes the topic of the gateway and counts the events
-- in Redis.
pub mod Leaderboard
pub mod Counters
use nex_pulse.Base.{
  ℕ, zero, suc, ◌+◌, Bool, true, false, Option, none, some, List, [], ◌∷◌, ◌++◌, if◌then◌else◌,
}
use nex_pulse.Text.{Text, codes}
use nex_pulse.Gateway.Ingest.{Event, as_string}

-- A command of a pipeline, with its key: INCR, and ZINCRBY with the increment and the member.
pub data Command : Type 0 where
  incr : Text → Command
  zincrby : Text → ℕ → Text → Command

-- What ReadMessage and json.Unmarshal give in one round of the loop.
pub data Message : Type 0 where
  read_error unparsed : Message
  parsed : Event → Message

-- What Exec gives: whether it returns no error, and how often Redis has run the INCR and the ZINCRBY of
-- the pipeline. A pipeline is no transaction: an error says nothing of what was run, and the client
-- may send it again.
pub record Outcome : Type 0 where
  pub ok : Bool
  pub counts : ℕ
  pub ranks : ℕ

-- A pipeline that is run once and succeeds.
abbrev pub once : Outcome
once = record { ok = true; counts = 1; ranks = 1 }

-- The metrics, and for each pipeline, the last one first, the commands that Redis has run of it and
-- whether Exec returned no error.
pub record Aggregator : Type 0 where
  pub consumed : ℕ
  pub processed : ℕ
  pub redis_errors : ℕ
  pub durations : ℕ
  pub pipelines : List (List Command × Bool)

unfoldable pub count_type : Option Text → List Command
unfolding codes
count_type none = []
count_type (some event_type) = incr (codes "agg:event_type:" ++ event_type) ∷ []

unfoldable pub count_user : Option Text → List Command
unfolding codes
count_user none = []
count_user (some user_id) = zincrby (codes "leaderboard:users") 1 user_id ∷ []

unfoldable pub repeated : ℕ → List Command → List Command
repeated zero cs = []
repeated (suc n) cs = cs ++ repeated n cs

-- What Redis runs of the commands that are queued for one event. The two commands have different keys,
-- so that only their numbers count.
unfoldable pub pipeline : Outcome → Event → List Command
unfolding count_type count_user as_string repeated
pipeline o event =
    repeated o.counts (count_type (as_string (event "event_type")))
    ++ repeated o.ranks (count_user (as_string (event "user_id")))

-- One round of the loop.
unfoldable pub consume : Message → Outcome → Aggregator → Aggregator
unfolding pipeline
consume read_error o a = a
consume unparsed o a = record a { consumed = a.consumed + 1 }
consume (parsed event) o a = record a {
  consumed = a.consumed + 1;
  processed = a.processed + 1;
  redis_errors = if o.ok then a.redis_errors else a.redis_errors + 1;
  durations = a.durations + 1;
  pipelines = (pipeline o event, o.ok) ∷ a.pipelines;
}

-- The loop over the messages that are read.
unfoldable pub consume_all : List (Message × Outcome) → Aggregator → Aggregator
unfolding consume
consume_all [] a = a
consume_all ((message, o) ∷ messages) a = consume_all messages (consume message o a)
