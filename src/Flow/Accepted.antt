-- ===== src/Flow/Accepted.antt =====
-- How many events of a user the gateway of services/gateway accepts, and how many messages they are.
use nex_pulse.Base.{
  ℕ, ◌+◌, ◌≡◌, ◌≤◌, refl, Bool, true, false, ◌&&◌, Option, none, some, List, [], ◌∷◌, ◌++◌, map,
  length, if◌then◌else◌, arith,
}
use nex_pulse.Base.Interleaving.{Interleaves, total, totals, total-Interleaves, total-append}
use nex_pulse.Text.{Text, same}
use nex_pulse.Gateway.Ingest.{Event, Answers, as_string}
use nex_pulse.Gateway.Concurrent.{
  Operation, observe, disconnect, reject_kafka, write_operations, produce_operations,
  limit_operations, user_operations, bind_operations, operations,
}
use nex_pulse.Gateway.Concurrent.Agreement.{message, messages}
use nex_pulse.Flow.{keyed}

abbrev pub passes : Option Bool → Bool
passes (some false) = false
passes _ = true

-- Whether the user of a request is this one.
abbrev pub is_of : Text → Option Text → Bool
is_of user none = false
is_of user (some []) = false
is_of user (some (c ∷ s)) = same (c ∷ s) user

-- Whether a request has an event of the user that is accepted.
unfoldable pub accepts : Text → Option Event → Answers → Bool
accepts user none a = false
accepts user (some event) a =
    is_of user (as_string (event "user_id")) && (passes a.allowed && (a.marshals && a.writes))

-- The accepted events of a user.
unfoldable pub accepted_count : Text → List Answers → ℕ
accepted_count user [] = 0
accepted_count user (a ∷ requests) =
    (if accepts user a.bound a then 1 else 0) + accepted_count user requests

pub accepted_count_le :
    (user : Text) (requests : List Answers) → accepted_count user requests ≤ length requests
unfolding accepted_count
accepted_count_le user [] = omega arith
accepted_count_le user (a ∷ requests) = let rest = accepted_count_le user requests in ground arith

module _ (user : Text) where
  abbrev pub weight : Operation → ℕ
  weight o = keyed user (message o)

  total-write :
      (c : ℕ) (s : Text) (event : Event) (writes : Bool)
      → total weight (write_operations (some (c ∷ s)) event writes)
        ≡ (if same (c ∷ s) user && writes then 1 else 0)
  unfolding write_operations total keyed
  total-write c s event true = ground arith
  total-write c s event false = ground arith

  module _ (event : Event) (a : Answers) (c : ℕ) (s : Text)
      (named : as_string (event "user_id") ≡ some (c ∷ s)) where
    total-produce :
        total weight (produce_operations event a)
        ≡ (if same (c ∷ s) user && (a.marshals && a.writes) then 1 else 0)
    unfolding produce_operations total keyed
    total-produce =
        elim a.marshals
          as (λ m.
            total weight (
              if m
              then write_operations (as_string (event "user_id")) event a.writes
              else reject_kafka ∷ [])
            ≡ (if same (c ∷ s) user && (m && a.writes) then 1 else 0)) [
              | true ↦ rw named (total-write c s event a.writes)
              | false ↦ ground arith
            ]

    total-limit :
        (allowed : Option Bool)
        → total weight (limit_operations allowed event a)
          ≡ (if same (c ∷ s) user && (passes allowed && (a.marshals && a.writes)) then 1 else 0)
    unfolding limit_operations total keyed
    total-limit (some false) = ground arith
    total-limit (some true) = total-produce
    total-limit none = total-produce

  total-user :
      (named : Option Text) (event : Event) (a : Answers)
      → as_string (event "user_id") ≡ named
      → total weight (user_operations named event a)
        ≡ (if is_of user named && (passes a.allowed && (a.marshals && a.writes)) then 1 else 0)
  unfolding user_operations total keyed
  total-user none event a h = refl
  total-user (some []) event a h = refl
  total-user (some (c ∷ s)) event a h =
      let rest = total-limit event a c s h a.allowed in omega (arith, rest)

  total-bind :
      (bound : Option Event) (a : Answers)
      → total weight (bind_operations bound a) ≡ (if accepts user bound a then 1 else 0)
  unfolding bind_operations accepts total keyed
  total-bind none a = refl
  total-bind (some event) a = total-user (as_string (event "user_id")) event a refl

  total-operations :
      (a : Answers) → total weight (operations a) ≡ (if accepts user a.bound a then 1 else 0)
  unfolding operations total keyed
  total-operations a = omega (
    arith,
    total-bind a.bound a,
    total-append weight (bind_operations a.bound a) (observe ∷ disconnect ∷ []),
  )

  pub totals-operations :
      (requests : List Answers)
      → totals weight (map operations requests) ≡ accepted_count user requests
  unfolding totals accepted_count
  totals-operations [] = refl
  totals-operations (a ∷ requests) = omega (arith, total-operations a, totals-operations requests)

  keyed-append :
      (xs ys : List (Text × Event)) → keyed user (xs ++ ys) ≡ keyed user xs + keyed user ys
  unfolding keyed
  keyed-append [] ys = omega arith
  keyed-append ((k, e) ∷ xs) ys = omega (arith, keyed-append xs ys)

  pub keyed-messages : (os : List Operation) → keyed user (messages os) ≡ total weight os
  unfolding messages total keyed
  keyed-messages [] = refl
  keyed-messages (o ∷ os) = omega (arith, keyed-append (message o) (messages os), keyed-messages os)

  keyed-total : (ms : List (Text × Event)) → keyed user ms ≡ total (λ m. keyed user (m ∷ [])) ms
  unfolding keyed total
  keyed-total [] = refl
  keyed-total ((k, e) ∷ ms) = omega (arith, keyed-total ms)

  -- The partitions have the messages of the queue, and so has what is read of them.
  pub keyed-Interleaves :
      {parts : List (List (Text × Event))} {queue read : List (Text × Event)}
      → Interleaves parts queue
      → Interleaves parts read
      → keyed user read ≡ keyed user queue
  keyed-Interleaves {parts} {queue} {read} i j = omega (
    arith,
    keyed-total read,
    keyed-total queue,
    total-Interleaves (λ (m : Text × Event). keyed user (m ∷ [])) i,
    total-Interleaves (λ (m : Text × Event). keyed user (m ∷ [])) j,
  )
