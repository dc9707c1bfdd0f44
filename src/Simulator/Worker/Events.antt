-- ===== src/Simulator/Worker/Events.antt =====
-- What the gateway makes of the events of the simulator, which it decodes with the strings that were encoded.
use nex_pulse.Base.{
  ℕ, ◌+◌, ◌≡◌, refl, sym, ap, ◌∙◌, Bool, true, false, ◌&&◌, Option, none, some, String, List, [],
  ◌∷◌, ◌++◌, map, ◌==◌, if◌then◌else◌, arith, Bool-cases, inl, inr,
}
use nex_pulse.Text.{Text, codes, same}
use nex_pulse.Text.Same.{same-eq, same_refl}
use nex_pulse.Text.Decimal.{decimal, value_from, value-decimal}
use nex_pulse.Gateway.Ingest.{Event, Answers, Gateway, as_string, handle_ingest}
use nex_pulse.Json.{str}
use nex_pulse.Flow.{handle_all, keyed}
use nex_pulse.Simulator.Worker.{simulated}

-- An event by its random numbers and its time, with the answers of the libraries to its request.
pub record Attempt : Type 0 where
  pub user : ℕ
  pub index : ℕ
  pub time : ℕ
  pub answers : Answers

abbrev pub user_key : ℕ → Text
user_key user = codes "user_" ++ decimal user

abbrev pub sent_event : Attempt → Event
sent_event t = simulated t.user t.index t.time

abbrev pub passes : Option Bool → Bool
passes (some false) = false
passes _ = true

-- Whether nothing keeps the event from the queue.
abbrev pub is_taken : Answers → Bool
is_taken a = passes a.allowed && (a.marshals && a.writes)

-- The events of a user that are taken.
unfoldable pub count : ℕ → List Attempt → ℕ
count user [] = 0
count user (t ∷ ts) = (if t.user == user && is_taken t.answers then 1 else 0) + count user ts

same-decimal : (u v : ℕ) → same (decimal u) (decimal v) ≡ (u == v)
same-decimal u v = elim (Bool-cases (same (decimal u) (decimal v))) [
  | inl e ↦
      (let value : u ≡ v =
          sym (value-decimal u)
          ∙ ap (value_from 0) (same-eq (decimal u) (decimal v) e)
          ∙ value-decimal v in
        ground arith)
  | inr e ↦ elim (Bool-cases (u == v)) [
    | inl eq ↦
        (let eq' : u ≡ v = ground arith in
          let self = sym (ap (λ w. same (decimal u) (decimal w)) eq') ∙ same_refl (decimal u) in
          ground arith)
    | inr ne ↦ e ∙ sym ne
  ]
]

same-user_key : (u v : ℕ) → same (user_key u) (user_key v) ≡ (u == v)
unfolding same codes
same-user_key u v = same-decimal u v

-- The queue takes the event `e`, if nothing keeps it, and the counters of bad requests stay.
abbrev IsIngested : ℕ → Event → Bool → Gateway → Gateway → Type 0
IsIngested user e taken g g' =
    (g'.queue ≡ (if taken then g.queue ++ (user_key user, e) ∷ [] else g.queue))
    × (g'.bad_request ≡ g.bad_request)
    × (g'.missing_user_id ≡ g.missing_user_id)

IsIngested-handle_ingest :
    (u : ℕ) (e : Event) (allowed : Option Bool) (marshals writes : Bool) (g : Gateway)
    → e "user_id" ≡ some (str (user_key u))
    → let a : Answers = record {
      bound = some e;
      allowed = allowed;
      marshals = marshals;
      writes = writes;
    } in
      IsIngested u e (is_taken a) g (handle_ingest a g).1
unfolding handle_ingest as_string codes
IsIngested-handle_ingest u e none true true g named = rw named (rw named (refl, refl, refl))
IsIngested-handle_ingest u e none true false g named = rw named (rw named (refl, refl, refl))
IsIngested-handle_ingest u e none false w g named = rw named (refl, refl, refl)
IsIngested-handle_ingest u e (some true) true true g named = rw named (rw named (refl, refl, refl))
IsIngested-handle_ingest u e (some true) true false g named = rw named (rw named (refl, refl, refl))
IsIngested-handle_ingest u e (some true) false w g named = rw named (refl, refl, refl)
IsIngested-handle_ingest u e (some false) m w g named = rw named (refl, refl, refl)

keyed-append :
    (user key : Text) (event : Event) (ms : List (Text × Event))
    → keyed user (ms ++ (key, event) ∷ []) ≡ keyed user ms + (if same key user then 1 else 0)
unfolding keyed
keyed-append user key event [] = omega arith
keyed-append user key event ((k, e) ∷ ms) = omega (arith, keyed-append user key event ms)

keyed_grown :
    (user key : Text) (event : Event) (ms : List (Text × Event)) (taken : Bool)
    → keyed user (if taken then ms ++ (key, event) ∷ [] else ms)
      ≡ keyed user ms + (if same key user && taken then 1 else 0)
keyed_grown user key event ms true = let more = keyed-append user key event ms in ground arith
keyed_grown user key event ms false = ground arith

-- What a JSON binding gives back for an object that json.Marshal has encoded: the strings are the same.
pub record Binds (decode : Event → Option Event) (e : Event) : Type 0 where
  pub event : Event
  pub decoded : decode e ≡ some event
  pub strings : (key : String) (s : Text) → e key ≡ some (str s) → event key ≡ some (str s)

-- The gateway's binding of what the simulator has encoded, which need not give the numbers back as
-- they were.
module _ (decode : Event → Option Event) (binds : (t : Attempt) → Binds decode (sent_event t)) where
  abbrev pub ask : Attempt → Answers
  ask t = record t.answers { bound = decode (sent_event t) }

  IsIngested-ask :
      (t : Attempt) (g : Gateway)
      → IsIngested t.user (binds t).event (is_taken t.answers) g (handle_ingest (ask t) g).1
  unfolding simulated
  IsIngested-ask t g =
      let a = t.answers in
      let b = binds t in
      rw b.decoded (
        IsIngested-handle_ingest t.user b.event a.allowed a.marshals a.writes g
          (b.strings "user_id" (user_key t.user) refl))

  -- If the binding of the gateway decodes the events that the simulator has encoded, with the same
  -- strings: then whatever the random choices and the other answers of the libraries, the gateway
  -- refuses no event of the simulator as a bad request or for its user, and the messages of each user
  -- grow by the events of the user that the limiter lets through and that are marshalled and written.
  pub handle_all-simulated :
      (attempts : List Attempt) (user : ℕ) (g : Gateway)
      → (keyed (user_key user) (handle_all (map ask attempts) g).queue
          ≡ keyed (user_key user) g.queue + count user attempts)
        × ((handle_all (map ask attempts) g).bad_request ≡ g.bad_request)
        × ((handle_all (map ask attempts) g).missing_user_id ≡ g.missing_user_id)
  unfolding handle_all count
  handle_all-simulated [] user g = (omega arith, refl, refl)
  handle_all-simulated (t ∷ ts) user g =
      let one = IsIngested-ask t g in
      let rest = handle_all-simulated ts user (handle_ingest (ask t) g).1 in
      let event = (binds t).event in
      let grown =
        keyed_grown (user_key user) (user_key t.user) event g.queue (is_taken t.answers) in
      let queue = ap (keyed (user_key user)) one.0 in
      let key =
        ap {B = ℕ} (λ b. if b && is_taken t.answers then 1 else 0) (same-user_key t.user user) in
      (omega (arith, rest.0, queue, grown, key), rest.1 ∙ one.1, rest.2 ∙ one.2)
