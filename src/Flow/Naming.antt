-- ===== src/Flow/Naming.antt =====
-- The messages of requests at once are keyed by the users that their events name.
use nex_pulse.Base.{
  ◌≡◌, refl, Bool, true, false, Option, none, some, List, [], ◌∷◌, map, All, All-append,
  if◌then◌else◌,
}
use nex_pulse.Text.{Text}
use nex_pulse.Gateway.Ingest.{Event, Answers, as_string}
use nex_pulse.Gateway.Accounting.{as_string-str}
use nex_pulse.Gateway.Concurrent.{
  Operation, observe, disconnect, reject_kafka, write_operations, produce_operations,
  limit_operations, user_operations, bind_operations, operations,
}
use nex_pulse.Gateway.Concurrent.Agreement.{message, messages}
use nex_pulse.Flow.{NamesKey}

-- The messages of an operation are keyed by their users.
abbrev pub Names : Operation → Type 0
Names o = All NamesKey (message o)

Names-write :
    (named : Option Text) (event : Event) (writes : Bool)
    → as_string (event "user_id") ≡ named
    → All Names (write_operations named event writes)
unfolding write_operations
Names-write none event writes h = tt
Names-write (some u) event true h = ((as_string-str (event "user_id") u h, tt), (tt, (tt, tt)))
Names-write (some u) event false h = (tt, (tt, tt))

Names-produce : (event : Event) (a : Answers) → All Names (produce_operations event a)
unfolding produce_operations
Names-produce event a =
    elim a.marshals
      as (λ m. All Names (
        if m
        then write_operations (as_string (event "user_id")) event a.writes
        else reject_kafka ∷ [])) [
          | true ↦ Names-write (as_string (event "user_id")) event a.writes refl
          | false ↦ (tt, tt)
        ]

Names-limit :
    (allowed : Option Bool) (event : Event) (a : Answers)
    → All Names (limit_operations allowed event a)
unfolding limit_operations
Names-limit (some false) event a = (tt, (tt, tt))
Names-limit (some true) event a = Names-produce event a
Names-limit none event a = Names-produce event a

Names-user :
    (named : Option Text) (event : Event) (a : Answers) → All Names (user_operations named event a)
unfolding user_operations
Names-user none event a = (tt, tt)
Names-user (some []) event a = (tt, tt)
Names-user (some (c ∷ s)) event a = (tt, Names-limit a.allowed event a)

Names-bind : (bound : Option Event) (a : Answers) → All Names (bind_operations bound a)
unfolding bind_operations
Names-bind none a = (tt, tt)
Names-bind (some event) a = Names-user (as_string (event "user_id")) event a

pub Names-operations : (requests : List Answers) → All (All Names) (map operations requests)
unfolding operations
Names-operations [] = tt
Names-operations (a ∷ requests) = (
  (
    tt,
    All-append Names (bind_operations a.bound a) (observe ∷ disconnect ∷ []) (Names-bind a.bound a)
        (tt, (tt, tt)),
  ),
  Names-operations requests,
)

pub NamesKey-messages : (os : List Operation) → All Names os → All NamesKey (messages os)
unfolding messages
NamesKey-messages [] h = tt
NamesKey-messages (o ∷ os) h =
    All-append NamesKey (message o) (messages os) h.0 (NamesKey-messages os h.1)
