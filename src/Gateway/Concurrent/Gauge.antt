-- ===== src/Gateway/Concurrent/Gauge.antt =====
-- The gauge of open connections while requests interleave: it never goes below 0.
use nex_pulse.Base.{
  ℕ, ◌+◌, ◌-◌, ◌≡◌, ◌≤◌, refl, Bool, true, false, Option, none, some, List, [], ◌∷◌, ◌++◌, map, All,
  if◌then◌else◌, arith,
}
use nex_pulse.Text.{Text}
use nex_pulse.Gateway.Ingest.{Event, Answers, Gateway, as_string}
use nex_pulse.Base.Interleaving.{
  Interleaves, finished, steps, total, totals, total-Interleaves, total-append,
}
use nex_pulse.Gateway.Concurrent.{
  Operation, connect, disconnect, observe, reject_kafka, perform, perform_all, write_operations,
  produce_operations, limit_operations, user_operations, bind_operations, operations,
}

unfoldable pub ups : Operation → ℕ
ups connect = 1
ups _ = 0

unfoldable pub downs : Operation → ℕ
downs disconnect = 1
downs _ = 0

-- The gauge is at least as high as what the next operation takes from it, all the way.
unfoldable pub IsSafe : ℕ → List Operation → Type 0
unfolding ups downs
IsSafe n [] = Unit
IsSafe n (o ∷ os) = (downs o ≤ n) × IsSafe (n + ups o - downs o) os

-- Each request holds a part of the gauge that is enough for it.
IsHeld : List (List Operation) → ℕ → Type 0
unfolding IsSafe
IsHeld [] n = Unit
IsHeld (t ∷ ts) n = (k : ℕ) × (m : ℕ) × (k + m ≤ n) × IsSafe k t × IsHeld ts m

IsHeld-step :
    (before : List (List Operation)) (o : Operation) (rest : List Operation)
    (after : List (List Operation)) (n : ℕ)
    → IsHeld (before ++ (o ∷ rest) ∷ after) n
    → (downs o ≤ n) × IsHeld (before ++ rest ∷ after) (n + ups o - downs o)
unfolding IsHeld IsSafe
IsHeld-step [] o rest after n (k, m, le, safe, held) =
    (omega (arith, le, safe.0), (k + ups o - downs o, m, omega (arith, le, safe.0), safe.1, held))
IsHeld-step (t ∷ before) o rest after n (k, m, le, safe, held) =
    let (enough, next) = IsHeld-step before o rest after m held in
    (omega (arith, le, enough), (k, m + ups o - downs o, omega (arith, le, enough), safe, next))

IsSafe-Interleaves :
    {ts : List (List Operation)} {trace : List Operation}
    → Interleaves ts trace
    → (n : ℕ) → IsHeld ts n
    → IsSafe n trace
unfolding IsSafe
IsSafe-Interleaves (finished ts h) n held = tt
IsSafe-Interleaves (steps before o rest after i) n held =
    let (enough, next) = IsHeld-step before o rest after n held in
    (enough, IsSafe-Interleaves i (n + ups o - downs o) next)

-- Operations that leave the gauge alone.
abbrev IsQuiet : Operation → Type 0
IsQuiet o = (ups o ≡ 0) × (downs o ≡ 0)

IsQuiet-write :
    (user : Option Text) (event : Event) (writes : Bool)
    → All IsQuiet (write_operations user event writes)
unfolding write_operations ups downs
IsQuiet-write none event writes = tt
IsQuiet-write (some u) event true = ((refl, refl), ((refl, refl), ((refl, refl), tt)))
IsQuiet-write (some u) event false = ((refl, refl), ((refl, refl), tt))

IsQuiet-produce : (event : Event) (a : Answers) → All IsQuiet (produce_operations event a)
unfolding produce_operations ups downs
IsQuiet-produce event a =
    elim a.marshals
      as (λ m. All IsQuiet (
        if m
        then write_operations (as_string (event "user_id")) event a.writes
        else reject_kafka ∷ [])) [
          | true ↦ IsQuiet-write (as_string (event "user_id")) event a.writes
          | false ↦ ((refl, refl), tt)
        ]

IsQuiet-limit :
    (allowed : Option Bool) (event : Event) (a : Answers)
    → All IsQuiet (limit_operations allowed event a)
unfolding limit_operations ups downs
IsQuiet-limit (some false) event a = ((refl, refl), ((refl, refl), tt))
IsQuiet-limit (some true) event a = IsQuiet-produce event a
IsQuiet-limit none event a = IsQuiet-produce event a

IsQuiet-user :
    (user : Option Text) (event : Event) (a : Answers) → All IsQuiet (user_operations user event a)
unfolding user_operations ups downs
IsQuiet-user none event a = ((refl, refl), tt)
IsQuiet-user (some []) event a = ((refl, refl), tt)
IsQuiet-user (some (c ∷ s)) event a = ((refl, refl), IsQuiet-limit a.allowed event a)

IsQuiet-bind : (bound : Option Event) (a : Answers) → All IsQuiet (bind_operations bound a)
unfolding bind_operations ups downs
IsQuiet-bind none a = ((refl, refl), tt)
IsQuiet-bind (some event) a = IsQuiet-user (as_string (event "user_id")) event a

IsSafe-append :
    (os ps : List Operation) (n : ℕ) → All IsQuiet os → IsSafe n ps → IsSafe n (os ++ ps)
unfolding IsSafe
IsSafe-append [] ps n q safe = safe
IsSafe-append (o ∷ os) ps n q safe =
    let same : n + ups o - downs o ≡ n = omega (arith, q.0.0, q.0.1) in
    (omega (arith, q.0.1), rw same (IsSafe-append os ps n q.1 safe))

total_quiet : (os : List Operation) → All IsQuiet os → (total ups os ≡ 0) × (total downs os ≡ 0)
unfolding total
total_quiet [] q = (refl, refl)
total_quiet (o ∷ os) q =
    let rest = total_quiet os q.1 in (omega (arith, q.0.0, rest.0), omega (arith, q.0.1, rest.1))

-- A request takes the gauge up once and down once.
IsSafe-operations :
    (a : Answers)
    → IsSafe 0 (operations a) × (total ups (operations a) ≡ total downs (operations a))
unfolding operations IsSafe ups downs total
IsSafe-operations a =
    let quiet = IsQuiet-bind a.bound a in
    let none_up = total_quiet (bind_operations a.bound a) quiet in
    (
      (
        omega arith,
        IsSafe-append (bind_operations a.bound a) (observe ∷ disconnect ∷ []) 1 quiet
            (omega arith, (omega arith, tt)),
      ),
      omega (
        arith,
        none_up.0,
        none_up.1,
        total-append ups (bind_operations a.bound a) (observe ∷ disconnect ∷ []),
        total-append downs (bind_operations a.bound a) (observe ∷ disconnect ∷ []),
      ),
    )

IsHeld-operations : (requests : List Answers) (n : ℕ) → IsHeld (map operations requests) n
unfolding IsHeld
IsHeld-operations [] n = tt
IsHeld-operations (a ∷ requests) n =
    (0, n, omega arith, (IsSafe-operations a).0, IsHeld-operations requests n)

-- Whatever the order, the gauge never has to go below 0.
pub IsSafe-requests :
    (requests : List Answers) {trace : List Operation} (n : ℕ)
    → Interleaves (map operations requests) trace
    → IsSafe n trace
IsSafe-requests requests n i = IsSafe-Interleaves i n (IsHeld-operations requests n)

balanced :
    (requests : List Answers)
    → totals ups (map operations requests) ≡ totals downs (map operations requests)
unfolding totals
balanced [] = refl
balanced (a ∷ requests) = omega (arith, (IsSafe-operations a).1, balanced requests)

gauge-step :
    (o : Operation) (g : Gateway)
    → (perform o g).active_connections ≡ g.active_connections + ups o - downs o
unfolding perform ups downs
gauge-step o g = ground arith

gauge-perform_all :
    (os : List Operation) (g : Gateway)
    → IsSafe g.active_connections os
    → (perform_all os g).active_connections + total downs os ≡ g.active_connections + total ups os
unfolding perform_all IsSafe total
gauge-perform_all [] g safe = refl
gauge-perform_all (o ∷ os) g safe =
    let next = gauge-step o g in
    let rest = gauge-perform_all os (perform o g) (rw next safe.1) in
    omega (arith, rest, next, safe.0)

-- When all requests are answered, the gauge is as before.
pub gauge-Interleaves :
    (requests : List Answers) {trace : List Operation} (g : Gateway)
    → Interleaves (map operations requests) trace
    → (perform_all trace g).active_connections ≡ g.active_connections
gauge-Interleaves requests {trace} g i = omega (
  arith,
  gauge-perform_all trace g (IsSafe-requests requests g.active_connections i),
  balanced requests,
  total-Interleaves ups i,
  total-Interleaves downs i,
)
