-- ===== src/Gateway/Concurrent/Agreement.antt =====
-- Requests that interleave leave what the same requests leave one after the other.
use mathlib.Core.Path.{subst₂}
use mathlib.Core.List.{Perm, perm-append_left_iff}
use mathlib.Core.List.Perm
use nex_pulse.Base.{
  ℕ, ◌+◌, ◌≡◌, refl, sym, ap, ◌∙◌, List, [], ◌∷◌, ◌++◌, append_assoc, append-nil, map, All, arith,
}
use nex_pulse.Base.Blocks.{perm_blocks}
use nex_pulse.Text.{Text}
use nex_pulse.Gateway.Ingest.{Event, Answers, Gateway, handle_ingest}
use nex_pulse.Gateway.Accounting.{handle_ingest-leave}
use nex_pulse.Base.Interleaving.{Interleaves, finished, steps, totals, total-Interleaves}
use nex_pulse.Gateway.Concurrent.{Operation, enqueue, perform, perform_all, operations}
use nex_pulse.Gateway.Concurrent.Alone.{operations-handle_ingest}
use nex_pulse.Gateway.Concurrent.Tally.{counter-perform_all}
use nex_pulse.Gateway.Concurrent.Gauge.{IsSafe, IsSafe-requests, gauge-Interleaves}
use nex_pulse.Flow.{handle_all}

-- A gateway that has counted nothing.
abbrev blank : Gateway
blank = record {
  active_connections = 0;
  durations = 0;
  bad_request = 0;
  missing_user_id = 0;
  rate_limit = 0;
  kafka_error = 0;
  rate_limit_hits = 0;
  events_ingested = 0;
  produce_durations = 0;
  pings = 0;
  queue = [];
}

-- A counter that each operation moves up by what it moves up from 0.
abbrev IsCounter : (Gateway → ℕ) → Type 0
IsCounter counter =
    (o : Operation) (g : Gateway) → counter (perform o g) ≡ counter g + counter (perform o blank)

module _ (counter : Gateway → ℕ) (counts : IsCounter counter) where
  abbrev weight : Operation → ℕ
  weight o = counter (perform o blank)

  counter-handle_all :
      (requests : List Answers) (g : Gateway)
      → counter (handle_all requests g) ≡ counter g + totals weight (map operations requests)
  unfolding handle_all totals
  counter-handle_all [] g = omega arith
  counter-handle_all (a ∷ requests) g =
      let one = ap counter (sym (operations-handle_ingest a g)) in
      omega (
        arith,
        counter-handle_all requests (handle_ingest a g).1,
        one,
        counter-perform_all weight counter counts (operations a) g,
      )

  counter-Interleaves :
      (requests : List Answers) {trace : List Operation} (g : Gateway)
      → Interleaves (map operations requests) trace
      → counter (perform_all trace g) ≡ counter (handle_all requests g)
  counter-Interleaves requests {trace} g i = omega (
    arith,
    counter-perform_all weight counter counts trace g,
    total-Interleaves weight i,
    counter-handle_all requests g,
  )

abbrev pub message : Operation → List (Text × Event)
message (enqueue user_id event) = (user_id, event) ∷ []
message _ = []

unfoldable pub messages : List Operation → List (Text × Event)
messages [] = []
messages (o ∷ os) = message o ++ messages os

all_messages : List (List Operation) → List (Text × Event)
unfolding messages
all_messages [] = []
all_messages (t ∷ ts) = messages t ++ all_messages ts

queue-perform : (o : Operation) (g : Gateway) → (perform o g).queue ≡ g.queue ++ message o
unfolding perform
queue-perform o g = ground (arith, append-nil g.queue)

pub queue-perform_all :
    (os : List Operation) (g : Gateway) → (perform_all os g).queue ≡ g.queue ++ messages os
unfolding perform_all messages
queue-perform_all [] g = sym (append-nil g.queue)
queue-perform_all (o ∷ os) g =
    queue-perform_all os (perform o g)
    ∙ ap (λ q. q ++ messages os) (queue-perform o g)
    ∙ append_assoc g.queue (message o) (messages os)

queue-handle_all :
    (requests : List Answers) (g : Gateway)
    → (handle_all requests g).queue ≡ g.queue ++ all_messages (map operations requests)
unfolding handle_all all_messages
queue-handle_all [] g = sym (append-nil g.queue)
queue-handle_all (a ∷ requests) g =
    queue-handle_all requests (handle_ingest a g).1
    ∙ ap (λ (h : Gateway). h.queue ++ all_messages (map operations requests))
        (sym (operations-handle_ingest a g))
    ∙ ap (λ q. q ++ all_messages (map operations requests)) (queue-perform_all (operations a) g)
    ∙ append_assoc g.queue (messages (operations a)) (all_messages (map operations requests))

all_messages-append :
    (ss ts : List (List Operation)) → all_messages (ss ++ ts) ≡ all_messages ss ++ all_messages ts
unfolding all_messages
all_messages-append [] ts = refl
all_messages-append (s ∷ ss) ts =
    ap (λ m. messages s ++ m) (all_messages-append ss ts)
    ∙ sym (append_assoc (messages s) (all_messages ss) (all_messages ts))

no_messages : (ts : List (List Operation)) → All (λ t. t ≡ []) ts → all_messages ts ≡ []
unfolding all_messages messages
no_messages [] h = refl
no_messages (t ∷ ts) h = rw h.0 (no_messages ts h.1)

messages-Interleaves :
    {ts : List (List Operation)} {trace : List Operation}
    → Interleaves ts trace
    → Perm (messages trace) (all_messages ts)
unfolding all_messages messages
messages-Interleaves (finished ts h) = rw (no_messages ts h) (Perm.refl [])
messages-Interleaves (steps before o rest after {trace} i) =
    let others = messages rest ++ all_messages after in
    Perm.trans ((perm-append_left_iff (message o)).1 (messages-Interleaves i)) (
      rw
        (
          all_messages-append before (rest ∷ after),
          all_messages-append before ((o ∷ rest) ∷ after),
          append_assoc (message o) (messages rest) (all_messages after),
        )
        (perm_blocks (message o) (all_messages before) others))

-- The same counters, and the same messages in some order.
pub record Agrees (g g' : Gateway) : Type 0 where
  pub active_connections : g.active_connections ≡ g'.active_connections
  pub durations : g.durations ≡ g'.durations
  pub bad_request : g.bad_request ≡ g'.bad_request
  pub missing_user_id : g.missing_user_id ≡ g'.missing_user_id
  pub rate_limit : g.rate_limit ≡ g'.rate_limit
  pub kafka_error : g.kafka_error ≡ g'.kafka_error
  pub rate_limit_hits : g.rate_limit_hits ≡ g'.rate_limit_hits
  pub events_ingested : g.events_ingested ≡ g'.events_ingested
  pub produce_durations : g.produce_durations ≡ g'.produce_durations
  pub pings : g.pings ≡ g'.pings
  pub queue : Perm g.queue g'.queue

module _ (o : Operation) (g : Gateway) where
  durations_counts : (perform o g).durations ≡ g.durations + (perform o blank).durations
  unfolding perform
  durations_counts = ground arith

  bad_request_counts : (perform o g).bad_request ≡ g.bad_request + (perform o blank).bad_request
  unfolding perform
  bad_request_counts = ground arith

  missing_user_id_counts :
      (perform o g).missing_user_id ≡ g.missing_user_id + (perform o blank).missing_user_id
  unfolding perform
  missing_user_id_counts = ground arith

  rate_limit_counts : (perform o g).rate_limit ≡ g.rate_limit + (perform o blank).rate_limit
  unfolding perform
  rate_limit_counts = ground arith

  kafka_error_counts : (perform o g).kafka_error ≡ g.kafka_error + (perform o blank).kafka_error
  unfolding perform
  kafka_error_counts = ground arith

  rate_limit_hits_counts :
      (perform o g).rate_limit_hits ≡ g.rate_limit_hits + (perform o blank).rate_limit_hits
  unfolding perform
  rate_limit_hits_counts = ground arith

  events_ingested_counts :
      (perform o g).events_ingested ≡ g.events_ingested + (perform o blank).events_ingested
  unfolding perform
  events_ingested_counts = ground arith

  produce_durations_counts :
      (perform o g).produce_durations ≡ g.produce_durations + (perform o blank).produce_durations
  unfolding perform
  produce_durations_counts = ground arith

  pings_counts : (perform o g).pings ≡ g.pings + (perform o blank).pings
  unfolding perform
  pings_counts = ground arith

gauge-handle_all :
    (requests : List Answers) (g : Gateway)
    → (handle_all requests g).active_connections ≡ g.active_connections
unfolding handle_all
gauge-handle_all [] g = refl
gauge-handle_all (a ∷ requests) g =
    gauge-handle_all requests (handle_ingest a g).1 ∙ (handle_ingest-leave a g).0

-- In whatever order the atomic operations of requests come that are handled at once: the gauge of open
-- connections never has to go below 0, and when all are answered, the metrics are those of the same
-- requests one after the other, and the queue has the same messages, in some order.
pub Agrees-Interleaves :
    (requests : List Answers) {trace : List Operation} (g : Gateway)
    → Interleaves (map operations requests) trace
    → IsSafe g.active_connections trace × Agrees (perform_all trace g) (handle_all requests g)
Agrees-Interleaves requests {trace} g i = (
  IsSafe-requests requests g.active_connections i,
  record {
    active_connections = gauge-Interleaves requests g i ∙ sym (gauge-handle_all requests g);
    durations = counter-Interleaves (λ h. h.durations) durations_counts requests g i;
    bad_request = counter-Interleaves (λ h. h.bad_request) bad_request_counts requests g i;
    missing_user_id =
        counter-Interleaves (λ h. h.missing_user_id) missing_user_id_counts requests g i;
    rate_limit = counter-Interleaves (λ h. h.rate_limit) rate_limit_counts requests g i;
    kafka_error = counter-Interleaves (λ h. h.kafka_error) kafka_error_counts requests g i;
    rate_limit_hits =
        counter-Interleaves (λ h. h.rate_limit_hits) rate_limit_hits_counts requests g i;
    events_ingested =
        counter-Interleaves (λ h. h.events_ingested) events_ingested_counts requests g i;
    produce_durations =
        counter-Interleaves (λ h. h.produce_durations) produce_durations_counts requests g i;
    pings = counter-Interleaves (λ h. h.pings) pings_counts requests g i;
    queue =
        subst₂ Perm (sym (queue-perform_all trace g)) (sym (queue-handle_all requests g))
          ((perm-append_left_iff g.queue).1 (messages-Interleaves i));
  },
)
