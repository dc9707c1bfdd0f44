-- ===== src/Simulator.antt =====
-- tools/simulator/main.go: how the rate is split over the workers.
pub mod Split
pub mod Worker
use Prim.Native.Nat.{◌^◌}
use nex_pulse.Base.{
  ℕ, zero, suc, ◌-◌, ◌/◌, Bool, true, false, not, ◌&&◌, ◌||◌, Option, none, some, ltb, ◌==◌,
  if◌then◌else◌,
}
use nex_pulse.Base.Slices.{ℤ, pos, negsuc}

abbrev pub abs : ℤ → ℕ
abs (pos n) = n
abs (negsuc n) = suc n

abbrev pub is_negative : ℤ → Bool
is_negative (pos n) = false
is_negative (negsuc n) = true

abbrev pub signed : Bool → ℕ → ℤ
signed true (suc n) = negsuc n
signed _ n = pos n

abbrev pub q_is_too_large : ℤ → Bool
q_is_too_large (pos n) = 2 ^ 63 == n
q_is_too_large (negsuc n) = false

-- `a / b` of two ints: it stops at 0, wraps for the least int over -1, and panics for 0, here none.
unfoldable pub quotient : ℤ → ℤ → Option ℤ
quotient a b =
    let negative =
      (is_negative a && not (is_negative b)) || (not (is_negative a) && is_negative b) in
    let q = signed negative (abs a / abs b) in
    let wrapped = if q_is_too_large q then negsuc (2 ^ 63 - 1) else q in
    if abs b == 0 then none else some wrapped

-- What main does: it panics, or starts the workers with the rate of each.
pub data Start : Type 0 where
  panicked : Start
  started : (workers events_per_worker : ℤ) → Start

-- `eventsPerWorker < 1`, with the workers capped to the rate.
unfoldable pub cap : ℤ → ℤ → ℤ → Start
cap rate workers events_per_worker =
    if is_negative events_per_worker || abs events_per_worker == 0
    then started rate (pos 1)
    else started workers events_per_worker

unfoldable pub split : ℤ → ℤ → Start
unfolding quotient cap
split rate workers = elim (quotient rate workers) [
  | none ↦ panicked
  | some events_per_worker ↦ cap rate workers events_per_worker
]
