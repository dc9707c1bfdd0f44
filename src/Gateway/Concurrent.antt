-- ===== src/Gateway/Concurrent.antt =====
-- Many requests at once to services/gateway: the handler as the list of its atomic operations on the
-- metrics and on the Kafka writer, which those of other requests can come between.
pub mod Alone
pub mod Tally
pub mod Gauge
pub mod Agreement
use nex_pulse.Base.{
  ℕ, ◌+◌, ◌-◌, ◌≡◌, Bool, true, false, Option, none, some, List, [], ◌∷◌, ◌++◌, All, if◌then◌else◌,
}
use nex_pulse.Text.{Text}
use nex_pulse.Gateway.Ingest.{Event, Answers, Gateway, as_string}

-- The calls that change what the requests share: the gauge up and down, the duration of a request,
-- the four reasons to reject, a hit of the limiter, an ingested event, the duration of a write, the
-- start of a ping, and a message for the asynchronous writer.
pub data Operation : Type 0 where
  connect disconnect observe : Operation
  reject_json reject_user reject_limit reject_kafka : Operation
  hit ingest time_write ping : Operation
  enqueue : Text → Event → Operation

unfoldable pub perform : Operation → Gateway → Gateway
perform connect g = record g { active_connections = g.active_connections + 1 }
perform disconnect g = record g { active_connections = g.active_connections - 1 }
perform observe g = record g { durations = g.durations + 1 }
perform reject_json g = record g { bad_request = g.bad_request + 1 }
perform reject_user g = record g { missing_user_id = g.missing_user_id + 1 }
perform reject_limit g = record g { rate_limit = g.rate_limit + 1 }
perform reject_kafka g = record g { kafka_error = g.kafka_error + 1 }
perform hit g = record g { rate_limit_hits = g.rate_limit_hits + 1 }
perform ingest g = record g { events_ingested = g.events_ingested + 1 }
perform time_write g = record g { produce_durations = g.produce_durations + 1 }
perform ping g = record g { pings = g.pings + 1 }
perform (enqueue user_id event) g = record g { queue = g.queue ++ (user_id, event) ∷ [] }

unfoldable pub perform_all : List Operation → Gateway → Gateway
unfolding perform
perform_all [] g = g
perform_all (o ∷ os) g = perform_all os (perform o g)

-- From the type assertion in ProduceEvent on, with what the handler does by its result.
unfoldable pub write_operations : Option Text → Event → Bool → List Operation
write_operations none event writes = []
write_operations (some user_id) event writes =
    if writes
    then enqueue user_id event ∷ time_write ∷ ingest ∷ []
    else time_write ∷ reject_kafka ∷ []

unfoldable pub produce_operations : Event → Answers → List Operation
unfolding write_operations as_string
produce_operations event a =
    if a.marshals
    then write_operations (as_string (event "user_id")) event a.writes
    else reject_kafka ∷ []

unfoldable pub limit_operations : Option Bool → Event → Answers → List Operation
unfolding produce_operations
limit_operations (some false) event a = hit ∷ reject_limit ∷ []
limit_operations _ event a = produce_operations event a

unfoldable pub user_operations : Option Text → Event → Answers → List Operation
unfolding limit_operations
user_operations none event a = reject_user ∷ []
user_operations (some []) event a = reject_user ∷ []
user_operations (some (c ∷ s)) event a = ping ∷ limit_operations a.allowed event a

unfoldable pub bind_operations : Option Event → Answers → List Operation
unfolding user_operations as_string
bind_operations none a = reject_json ∷ []
bind_operations (some event) a = user_operations (as_string (event "user_id")) event a

-- The whole handler; the deferred calls run last, the later one first.
unfoldable pub operations : Answers → List Operation
unfolding bind_operations
operations a = connect ∷ (bind_operations a.bound a ++ observe ∷ disconnect ∷ [])
