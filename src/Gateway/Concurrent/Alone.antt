-- ===== src/Gateway/Concurrent/Alone.antt =====
-- A request alone: its operations are those of the handler.
use nex_pulse.Base.{
  ◌+◌, ◌≡◌, refl, ap, ◌∙◌, Bool, true, false, Option, none, some, List, [], ◌∷◌, ◌++◌,
  if◌then◌else◌,
}
use nex_pulse.Text.{Text}
use nex_pulse.Gateway.Ingest.{
  Event, Answers, Gateway, as_string, failed, after_produce, produce_event, write_keyed,
  after_limit, after_user, after_bind, leave, handle_ingest,
}
use nex_pulse.Gateway.Concurrent.{
  Operation, disconnect, observe, reject_kafka, perform, perform_all, write_operations,
  produce_operations, limit_operations, user_operations, bind_operations, operations,
}

pub perform_all-append :
    (os ps : List Operation) (g : Gateway)
    → perform_all (os ++ ps) g ≡ perform_all ps (perform_all os g)
unfolding perform_all
perform_all-append [] ps g = refl
perform_all-append (o ∷ os) ps g = perform_all-append os ps (perform o g)

write_operations-write_keyed :
    (user : Option Text) (event : Event) (writes : Bool) (g : Gateway)
    → perform_all (write_operations user event writes) g
      ≡ (after_produce (write_keyed user event writes g)).1
unfolding perform_all write_operations after_produce write_keyed
write_operations-write_keyed none event writes g = refl
write_operations-write_keyed (some user_id) event true g = refl
write_operations-write_keyed (some user_id) event false g = refl

produce_operations-produce_event :
    (event : Event) (a : Answers) (g : Gateway)
    → perform_all (produce_operations event a) g
      ≡ (after_produce (produce_event event a.marshals a.writes g)).1
unfolding produce_operations produce_event perform_all after_produce
produce_operations-produce_event event a g =
    elim a.marshals
      as (λ m.
        perform_all
          (if m
            then write_operations (as_string (event "user_id")) event a.writes
            else reject_kafka ∷ [])
          g
        ≡ (after_produce (
            if m
            then write_keyed (as_string (event "user_id")) event a.writes g
            else (failed, g))).1) [
              | true ↦ write_operations-write_keyed (as_string (event "user_id")) event a.writes g
              | false ↦ refl
            ]

limit_operations-after_limit :
    (allowed : Option Bool) (event : Event) (a : Answers) (g : Gateway)
    → perform_all (limit_operations allowed event a) g ≡ (after_limit allowed event a g).1
unfolding limit_operations after_limit perform_all
limit_operations-after_limit (some false) event a g = refl
limit_operations-after_limit (some true) event a g = produce_operations-produce_event event a g
limit_operations-after_limit none event a g = produce_operations-produce_event event a g

user_operations-after_user :
    (user : Option Text) (event : Event) (a : Answers) (g : Gateway)
    → perform_all (user_operations user event a) g ≡ (after_user user event a g).1
unfolding user_operations after_user perform_all
user_operations-after_user none event a g = refl
user_operations-after_user (some []) event a g = refl
user_operations-after_user (some (c ∷ s)) event a g =
    limit_operations-after_limit a.allowed event a (record g { pings = g.pings + 1 })

bind_operations-after_bind :
    (bound : Option Event) (a : Answers) (g : Gateway)
    → perform_all (bind_operations bound a) g ≡ (after_bind bound a g).1
unfolding bind_operations after_bind perform_all
bind_operations-after_bind none a g = refl
bind_operations-after_bind (some event) a g =
    user_operations-after_user (as_string (event "user_id")) event a g

-- The operations of a request, one after the other, do what the handler does.
pub operations-handle_ingest :
    (a : Answers) (g : Gateway) → perform_all (operations a) g ≡ (handle_ingest a g).1
unfolding operations handle_ingest leave perform_all
operations-handle_ingest a g =
    let entered = record g { active_connections = g.active_connections + 1 } in
    perform_all-append (bind_operations a.bound a) (observe ∷ disconnect ∷ []) entered
    ∙ ap (λ h. perform_all (observe ∷ disconnect ∷ []) h)
        (bind_operations-after_bind a.bound a entered)
