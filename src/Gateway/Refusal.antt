-- ===== src/Gateway/Refusal.antt =====
-- The handler of services/gateway/handlers/ingest.go with its rate limiter: 50 requests in a second.
use nex_pulse.Base.{
  ℕ, ◌+◌, ◌≡◌, ◌≢◌, ◌<◌, ◌↔◌, refl, ap, sym, ◌∙◌, Bool, true, false, Option, none, some, List, [],
  ◌∷◌, length, leb, arith,
}
use nex_pulse.Text.{Text}
use nex_pulse.Json.{str}
use nex_pulse.Gateway.Ingest.{
  Event, Answers, Gateway, Produced, sent, failed, panicked, as_string, produce_event,
  after_produce, after_limit, after_user, after_bind, leave, handle_ingest,
}
use nex_pulse.Gateway.SortedSets.{SortedSets, IsRedis}
use nex_pulse.Gateway.RateLimit.{allow_request}
use nex_pulse.Gateway.RateLimit.Requests.{Request, times_of, IsTimely, window_times, serve}
use nex_pulse.Gateway.RateLimit.History.{verdict-serve}

-- `50` and `time.Second`, the arguments of the handler's call.
abbrev pub handler_limit : ℕ
handler_limit = 50

abbrev pub second : ℕ
second = 1_000_000_000

over : (n : ℕ) → some (leb n handler_limit) ≡ some false → handler_limit < n
over n h = let b : leb n handler_limit ≡ false = cc in ground arith

-- What ProduceEvent leads to is not 429.
status-after_produce : (r : Produced × Gateway) → (after_produce r).0 ≢ 429
unfolding after_produce
status-after_produce (sent, g) h = absurd (omega arith)
status-after_produce (failed, g) h = absurd (omega arith)
status-after_produce (panicked, g) h = absurd (omega arith)

status-after_limit :
    (allowed : Option Bool) (event : Event) (a : Answers) (g : Gateway)
    → ((after_limit allowed event a g).0 ≡ 429) ↔ (allowed ≡ some false)
unfolding after_limit
status-after_limit (some false) event a g = (λ h. refl, λ h. refl)
status-after_limit (some true) event a g = (
  λ h. absurd (status-after_produce (produce_event event a.marshals a.writes g) h),
  λ h. absurd (cc),
)
status-after_limit none event a g = (
  λ h. absurd (status-after_produce (produce_event event a.marshals a.writes g) h),
  λ h. absurd (cc),
)

status-after_user :
    (user : Text) (event : Event) (a : Answers) (g : Gateway)
    → user ≢ []
    → ((after_user (some user) event a g).0 ≡ 429) ↔ (a.allowed ≡ some false)
unfolding after_user
status-after_user [] event a g full = absurd (full refl)
status-after_user (c ∷ s) event a g full =
    status-after_limit a.allowed event a (record g { pings = g.pings + 1 })

-- The status of an event of a named user is 429 exactly if the limiter says no.
status-handle_ingest :
    (event : Event) (user : Text) (allowed : Option Bool) (marshals writes : Bool) (g : Gateway)
    → event "user_id" ≡ some (str user)
    → user ≢ []
    → ((handle_ingest
          (record { bound = some event; allowed = allowed; marshals = marshals; writes = writes })
          g).0
        ≡ 429)
      ↔ (allowed ≡ some false)
unfolding handle_ingest after_bind as_string leave
status-handle_ingest event user allowed marshals writes g named full = rw named (
    status-after_user user event
      (record { bound = some event; allowed = allowed; marshals = marshals; writes = writes })
      (record g { active_connections = g.active_connections + 1 }) full)

module _ {R : Type 0} (s : SortedSets R) (laws : IsRedis s) (empty : R)
    (none_yet : (key : Text) (m : ℕ) → s.zscore empty key m ≡ none) where
  -- Over a Redis with the documented effects of the commands and without the keys of users at the
  -- start: after any requests whose clock does not go back, from a second on and below 2^63
  -- nanoseconds, and none of which had an error of the store, an event that names its user is
  -- answered with 429 exactly if more than 50 different times of requests of that user, this one
  -- included and refused ones too, are newer than a second, as float64 tells times apart, if its
  -- own request to the store has no error; and if that has one, it is not answered with 429.
  pub handle_ingest-limited :
      (event : Event) (user : Text) (now : ℕ) (requests : List Request) (marshals writes : Bool)
      (g : Gateway)
      → event "user_id" ≡ some (str user)
      → user ≢ []
      → IsTimely second ((user, now) ∷ requests)
      → let verdict =
          (allow_request s user handler_limit second now none
            (s.elapse now (serve s empty handler_limit second requests))).0 in
        (((handle_ingest
              (record {
                bound = some event;
                allowed = verdict;
                marshals = marshals;
                writes = writes;
              })
              g).0
            ≡ 429)
          ↔ (handler_limit < length (window_times second now (times_of user requests))))
        × ((left : R)
            → (handle_ingest
                (record {
                  bound = some event;
                  allowed =
                      (allow_request s user handler_limit second now
                        (some left)
                        (s.elapse now (serve s empty handler_limit second requests))).0;
                  marshals = marshals;
                  writes = writes;
                })
                g).0
              ≢ 429)
  unfolding allow_request
  handle_ingest-limited event user now requests marshals writes g named full timely =
      let verdict =
        verdict-serve s laws empty none_yet handler_limit second (omega arith, refl) user now
          requests timely in
      let status =
        status-handle_ingest event user
          ((allow_request s user handler_limit second now none
            (s.elapse now (serve s empty handler_limit second requests))).0)
          marshals writes g named full in
      (
        (
          λ h.
              over (length (window_times second now (times_of user requests)))
                (sym verdict ∙ status.0 h),
          λ h. status.1 (verdict ∙ ap some (ground arith)),
        ),
        λ left h.
            (let no = (status-handle_ingest event user none marshals writes g named full).0 h in
              absurd (cc)),
      )
