-- ===== src/Simulator/Split.antt =====
-- How close the workers come to the rate that was asked for.
use Prim.Native.Nat.{◌^◌}
use native.Mathlib.Nat.{div-add-mod, mod-lt, div-le_self, div-eq_of_lt, le-div_iff_mul-le}
use nex_pulse.Base.{
  ℕ, ◌+◌, ◌*◌, ◌/◌, ◌≡◌, ◌≤◌, ◌<◌, refl, ◌∙◌, true, false, some, ltb, arith, Bool-cases, inl, inr,
}
use nex_pulse.Base.Slices.{pos}
use nex_pulse.Simulator.{Start, started, quotient, cap, split}

-- The workers that are started, each with its rate.
pub record Splits (rate workers : ℕ) (start : Start) : Type 0 where
  pub count : ℕ
  pub each : ℕ
  pub starts : start ≡ started (pos count) (pos each)
  pub few : count ≤ workers
  pub busy : 1 ≤ each
  pub share : each * workers ≤ rate + workers
  pub below : count * each ≤ rate
  pub close : rate < count * each + workers

-- The quotient and what it leaves.
shares :
    (rate workers : ℕ)
    → 0 < workers
    → (workers * (rate / workers) ≤ rate) × (rate < workers * (rate / workers) + workers)
shares rate workers some_workers =
    let whole = div-add-mod rate workers in
    let rest = mod-lt rate some_workers in (omega (arith, whole), omega (arith, whole, rest))

no_share : (rate workers : ℕ) → ltb rate workers ≡ true → rate / workers ≡ 0
no_share rate workers less = let below : rate < workers = ground arith in div-eq_of_lt below

one_share : (rate workers : ℕ) → 0 < workers → ltb rate workers ≡ false → 1 ≤ rate / workers
one_share rate workers some_workers more = (le-div_iff_mul-le some_workers).1 (ground arith)

pub quotient-pos :
    (rate workers : ℕ)
    → rate < 2 ^ 63
    → 0 < workers
    → quotient (pos rate) (pos workers) ≡ some (pos (rate / workers))
unfolding quotient
quotient-pos rate workers small some_workers = let below = div-le_self rate workers in ground arith

split-cap :
    (rate workers : ℕ)
    → rate < 2 ^ 63
    → 0 < workers
    → split (pos rate) (pos workers) ≡ cap (pos rate) (pos workers) (pos (rate / workers))
unfolding split
split-cap rate workers small some_workers =
    rw (split, quotient-pos rate workers small some_workers) refl

-- For a rate and a number of workers that are ints and not negative, if there is a worker: no more
-- workers are started than were asked for, each has a rate of at least 1 and at most one above its even
-- share, and together they stay at or below the rate that was asked for, by less than one event for
-- each worker.
pub split-Splits :
    (rate workers : ℕ)
    → rate < 2 ^ 63
    → 0 < workers
    → Splits rate workers (split (pos rate) (pos workers))
unfolding cap
split-Splits rate workers small some_workers = elim (Bool-cases (ltb rate workers)) [
  | inl less ↦ record {
    count = rate;
    each = 1;
    starts =
        split-cap rate workers small some_workers
        ∙ (let e = no_share rate workers less in ground arith);
    few = ground arith;
    busy = omega arith;
    share = omega arith;
    below = omega arith;
    close = omega arith;
  }
  | inr more ↦ record {
    count = workers;
    each = rate / workers;
    starts =
        split-cap rate workers small some_workers
        ∙ (let e = one_share rate workers some_workers more in ground arith);
    few = omega arith;
    busy = one_share rate workers some_workers more;
    share = omega (arith, (shares rate workers some_workers).0);
    below = (shares rate workers some_workers).0;
    close = (shares rate workers some_workers).1;
  }
]
