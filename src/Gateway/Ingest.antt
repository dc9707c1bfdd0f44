-- ===== src/Gateway/Ingest.antt =====
-- services/gateway/handlers/ingest.go and ProduceEvent of services/gateway/kafka/producer.go. What
-- the libraries answer in a request (the JSON binding, the rate limiter, json.Marshal and the Kafka
-- writer) is given with the request.
use nex_pulse.Base.{
  ℕ, ◌+◌, ◌-◌, String, Bool, false, Option, none, some, List, [], ◌∷◌, ◌++◌, if◌then◌else◌,
}
use nex_pulse.Text.{Text}
use nex_pulse.Json.{Json, str}

-- `map[string]any`
abbrev pub Event : Type 0
Event = String → Option Json

-- The answers in one request: the bound event, or none for an error of the binding; the verdict of
-- the rate limiter, or none for its error; whether the event marshals; whether the write succeeds.
pub record Answers : Type 0 where
  pub bound : Option Event
  pub allowed : Option Bool
  pub marshals : Bool
  pub writes : Bool

-- The metrics of the gateway, the requests to the anomaly detector that were started, and the
-- messages that the asynchronous Kafka writer took, each with its key.
pub record Gateway : Type 0 where
  pub active_connections : ℕ
  pub durations : ℕ
  pub bad_request : ℕ
  pub missing_user_id : ℕ
  pub rate_limit : ℕ
  pub kafka_error : ℕ
  pub rate_limit_hits : ℕ
  pub events_ingested : ℕ
  pub produce_durations : ℕ
  pub pings : ℕ
  pub queue : List (Text × Event)

-- `v.(string)`, or none where the assertion does not hold.
unfoldable pub as_string : Option Json → Option Text
as_string (some (str s)) = some s
as_string _ = none

-- What ProduceEvent returns, or the panic of `event["user_id"].(string)`.
pub data Produced : Type 0 where
  sent failed panicked : Produced

-- From the type assertion on; the duration is observed whether or not the write succeeds.
unfoldable pub write_keyed : Option Text → Event → Bool → Gateway → Produced × Gateway
write_keyed none event writes g = (panicked, g)
write_keyed (some user_id) event writes g =
    if writes
    then (
      sent,
      record g {
        produce_durations = g.produce_durations + 1;
        queue = g.queue ++ (user_id, event) ∷ [];
      },
    )
    else (failed, record g { produce_durations = g.produce_durations + 1 })

unfoldable pub produce_event : Event → Bool → Bool → Gateway → Produced × Gateway
unfolding as_string write_keyed
produce_event event marshals writes g =
    if marshals then write_keyed (as_string (event "user_id")) event writes g else (failed, g)

-- The status of the response with the gateway after the request.
abbrev pub Answered : Type 0
Answered = ℕ × Gateway

-- The end of the handler, by what ProduceEvent returned.
unfoldable pub after_produce : Produced × Gateway → Answered
after_produce (sent, g) = (202, record g { events_ingested = g.events_ingested + 1 })
after_produce (failed, g) = (500, record g { kafka_error = g.kafka_error + 1 })
after_produce (panicked, g) = (500, g)

-- From the verdict of the rate limiter on. Its error lets the request pass.
unfoldable pub after_limit : Option Bool → Event → Answers → Gateway → Answered
unfolding produce_event after_produce
after_limit (some false) event a g =
    (429, record g { rate_limit_hits = g.rate_limit_hits + 1; rate_limit = g.rate_limit + 1 })
after_limit _ event a g = after_produce (produce_event event a.marshals a.writes g)

-- From the check of the user on.
unfoldable pub after_user : Option Text → Event → Answers → Gateway → Answered
unfolding after_limit
after_user none event a g = (400, record g { missing_user_id = g.missing_user_id + 1 })
after_user (some []) event a g = (400, record g { missing_user_id = g.missing_user_id + 1 })
after_user (some (c ∷ s)) event a g =
    after_limit a.allowed event a (record g { pings = g.pings + 1 })

unfoldable pub after_bind : Option Event → Answers → Gateway → Answered
unfolding after_user as_string
after_bind none a g = (400, record g { bad_request = g.bad_request + 1 })
after_bind (some event) a g = after_user (as_string (event "user_id")) event a g

-- The deferred calls, which run on every return.
unfoldable pub leave : Answered → Answered
leave (status, g) = (
  status,
  record g { active_connections = g.active_connections - 1; durations = g.durations + 1 },
)

unfoldable pub handle_ingest : Answers → Gateway → Answered
unfolding after_bind leave
handle_ingest a g =
    leave (after_bind a.bound a (record g { active_connections = g.active_connections + 1 }))
