-- ===== src/Gateway/Accounting.antt =====
-- How the handler counts requests, and which of them reach the Kafka writer.
use nex_pulse.Base.{
  ℕ, ◌+◌, ◌≡◌, ◌≢◌, refl, Bool, true, false, Option, none, some, [], ◌∷◌, ◌++◌, arith,
}
use nex_pulse.Text.{Text}
use nex_pulse.Json.{Json, str}
use nex_pulse.Gateway.Ingest.{
  Event, Answers, Gateway, as_string, failed, write_keyed, produce_event, Answered, after_produce,
  after_limit, after_user, after_bind, leave, handle_ingest,
}

-- All requests that were counted as rejected, over the reasons.
abbrev pub rejected : Gateway → ℕ
rejected g = g.bad_request + g.missing_user_id + g.rate_limit + g.kafka_error

-- How a request changed the gateway, by the status of its response.
pub data Counted (g : Gateway) : ℕ → Gateway → Type 0 where
  invalid :
      (g' : Gateway)
      → g'.events_ingested ≡ g.events_ingested
      → rejected g' ≡ rejected g + 1
      → g'.pings ≡ g.pings
      → g'.queue ≡ g.queue
      → Counted g 400 g'
  limited :
      (g' : Gateway)
      → g'.events_ingested ≡ g.events_ingested
      → rejected g' ≡ rejected g + 1
      → g'.rate_limit_hits ≡ g.rate_limit_hits + 1
      → g'.pings ≡ g.pings + 1
      → g'.queue ≡ g.queue
      → Counted g 429 g'
  broken :
      (g' : Gateway)
      → g'.events_ingested ≡ g.events_ingested
      → rejected g' ≡ rejected g + 1
      → g'.kafka_error ≡ g.kafka_error + 1
      → g'.pings ≡ g.pings + 1
      → g'.queue ≡ g.queue
      → Counted g 500 g'
  accepted :
      (g' : Gateway) (user_id : Text) (event : Event)
      → event "user_id" ≡ some (str user_id)
      → user_id ≢ []
      → g'.events_ingested ≡ g.events_ingested + 1
      → rejected g' ≡ rejected g
      → g'.pings ≡ g.pings + 1
      → g'.queue ≡ g.queue ++ (user_id, event) ∷ []
      → Counted g 202 g'

pub as_string-str : (o : Option Json) (s : Text) → as_string o ≡ some s → o ≡ some (str s)
unfolding as_string
as_string-str (some (str t)) s h = ground arith
as_string-str _ s h = cc

-- The deferred calls change nothing that is counted here.
Counted-leave : (g : Gateway) (r : Answered) → Counted g r.0 r.1 → Counted g (leave r).0 (leave r).1
unfolding leave
Counted-leave g (_, g') (invalid _ i r p t) = invalid _ i r p t
Counted-leave g (_, g') (limited _ i r l p t) = limited _ i r l p t
Counted-leave g (_, g') (broken _ i r k p t) = broken _ i r k p t
Counted-leave g (_, g') (accepted _ u e at full i r p t) = accepted _ u e at full i r p t

Counted-failed :
    (g : Gateway)
    → let r = after_produce (failed, record g { pings = g.pings + 1 }) in Counted g r.0 r.1
unfolding after_produce
Counted-failed g = broken _ refl (omega arith) refl refl refl

-- From the type assertion on, where it holds.
Counted-write_keyed :
    (g : Gateway) (event : Event) (user_id : Text) (writes : Bool)
    → event "user_id" ≡ some (str user_id)
    → user_id ≢ []
    → let r =
        after_produce
          (write_keyed (some user_id) event writes (record g { pings = g.pings + 1 })) in
      Counted g r.0 r.1
unfolding after_produce write_keyed
Counted-write_keyed g event user_id true at full =
    accepted _ user_id event at full refl refl refl refl
Counted-write_keyed g event user_id false at full = broken _ refl (omega arith) refl refl refl

Counted-produce_event :
    (g : Gateway) (event : Event) (user_id : Text) (marshals writes : Bool)
    → as_string (event "user_id") ≡ some user_id
    → user_id ≢ []
    → let r =
        after_produce (produce_event event marshals writes (record g { pings = g.pings + 1 })) in
      Counted g r.0 r.1
unfolding produce_event
Counted-produce_event g event user_id true writes at full =
    rw at
      (Counted-write_keyed g event user_id writes (as_string-str (event "user_id") user_id at) full)
Counted-produce_event g event user_id false writes at full = Counted-failed g

-- From the verdict of the rate limiter on.
Counted-after_limit :
    (g : Gateway) (allowed : Option Bool) (event : Event) (a : Answers) (user_id : Text)
    → as_string (event "user_id") ≡ some user_id
    → user_id ≢ []
    → let r = after_limit allowed event a (record g { pings = g.pings + 1 }) in Counted g r.0 r.1
unfolding after_limit
Counted-after_limit g (some false) event a user_id at full =
    limited _ refl (omega arith) refl refl refl
Counted-after_limit g (some true) event a user_id at full =
    Counted-produce_event g event user_id a.marshals a.writes at full
Counted-after_limit g none event a user_id at full =
    Counted-produce_event g event user_id a.marshals a.writes at full

-- From the check of the user on.
Counted-after_user :
    (g : Gateway) (user : Option Text) (event : Event) (a : Answers)
    → as_string (event "user_id") ≡ user
    → let r = after_user user event a g in Counted g r.0 r.1
unfolding after_user
Counted-after_user g none event a at = invalid _ refl (omega arith) refl refl
Counted-after_user g (some []) event a at = invalid _ refl (omega arith) refl refl
Counted-after_user g (some (c ∷ s)) event a at =
    Counted-after_limit g a.allowed event a (c ∷ s) at (λ e. cc)

Counted-after_bind :
    (g : Gateway) (bound : Option Event) (a : Answers)
    → let r = after_bind bound a g in Counted g r.0 r.1
unfolding after_bind
Counted-after_bind g none a = invalid _ refl (omega arith) refl refl
Counted-after_bind g (some event) a =
    Counted-after_user g (as_string (event "user_id")) event a refl

-- Nor does the count of the open requests.
Counted-enter :
    (g : Gateway) {status : ℕ} {g' : Gateway}
    → Counted (record g { active_connections = g.active_connections + 1 }) status g'
    → Counted g status g'
Counted-enter g (invalid _ i r p t) = invalid _ i r p t
Counted-enter g (limited _ i r l p t) = limited _ i r l p t
Counted-enter g (broken _ i r k p t) = broken _ i r k p t
Counted-enter g (accepted _ u e at full i r p t) = accepted _ u e at full i r p t

-- Each request is answered with 400, 429, 500 or 202. A 202 counts one ingested event, no rejected
-- one, and its message, keyed by the user it names, is the last that the writer took. Any other
-- answer counts one rejected event, no ingested one, and leaves the messages as they were. The
-- anomaly detector is called for each request but those answered with 400. It never panics: where
-- ProduceEvent asserts that the user is a string, it is one.
pub handle_ingest-Counted :
    (a : Answers) (g : Gateway) → Counted g (handle_ingest a g).0 (handle_ingest a g).1
unfolding handle_ingest
handle_ingest-Counted a g =
    let entered = record g { active_connections = g.active_connections + 1 } in
    Counted-enter g
      (Counted-leave entered (after_bind a.bound a entered) (Counted-after_bind entered a.bound a))

-- Nothing between the entry and the deferred calls touches the gauge or the histogram of requests.
after_bind-connections :
    (o : Option Event) (a : Answers) (g : Gateway)
    → ((after_bind o a g).1.active_connections ≡ g.active_connections)
      × ((after_bind o a g).1.durations ≡ g.durations)
unfolding after_bind after_user after_limit produce_event after_produce write_keyed
after_bind-connections o a g = ground arith

-- After any request the gauge of the open connections stands where it stood before it, and the
-- histogram of the durations has one observation more.
pub handle_ingest-leave :
    (a : Answers) (g : Gateway)
    → ((handle_ingest a g).1.active_connections ≡ g.active_connections)
      × ((handle_ingest a g).1.durations ≡ g.durations + 1)
unfolding handle_ingest leave
handle_ingest-leave a g =
    let entered = record g { active_connections = g.active_connections + 1 } in
    let kept = after_bind-connections a.bound a entered in ground arith
