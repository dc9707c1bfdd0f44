-- ===== src/Anomaly/Historic.antt =====
-- The condition of the alert against the one that its comment gives: more than double the average of
-- the seconds before.
use Prim.Native.Nat.{◌^◌, max}
use native.Mathlib.Nat.{mul-le-mul_right}
use nex_pulse.Base.{
  ℕ, ◌+◌, ◌*◌, ◌≡◌, ◌≤◌, ◌<◌, refl, ap, sym, ◌∙◌, Bool, true, false, not, ◌&&◌, ◌||◌, ltb, arith,
  Bool-cases, inl, inr,
}
use nex_pulse.Anomaly.Float64.{Float64, round, at_scale, times, float64, exceeds}
use nex_pulse.Anomaly.Rounding.{round-IsNear}
use nex_pulse.Anomaly.Monotone.{float_of}
use nex_pulse.Anomaly.Detector.{two, smooth, is_spike, greater}
use nex_pulse.Anomaly.Above.{IsAbove, coarser, IsAbove-weaken, finer, scale-round}
use nex_pulse.Anomaly.Smoothing.{negative-smooth, negative-times, negative-float64, IsAbove-smooth}
use nex_pulse.Anomaly.Steady.{exceeds-positive, float_of-near, at_scale-float64, silent}

-- The comment's condition, with the average before the second.
abbrev pub is_above_history : Float64 → ℕ → Bool
is_above_history ema rps = exceeds (float64 rps) (times ema two) && greater rps 100

times-two : (e : Float64) → e.negative ≡ false → times e two ≡ round false (e.magnitude * 2) e.scale
unfolding times
times-two e pos =
    let flag : ((e.negative && true) || (not e.negative && false)) ≡ false = ground arith in
    let all : e.scale + 0 ≡ e.scale = omega arith in
    ap (λ b. round b (e.magnitude * 2) (e.scale + 0)) flag
    ∙ ap (λ k. round false (e.magnitude * 2) k) all

-- Doubling is off by less than one part in a thousand.
double-near :
    (e : Float64)
    → e.negative ≡ false
    → e.scale ≤ 1074
    → 1000 * at_scale e.scale (times e two) ≤ 2002 * e.magnitude
double-near e pos fine =
    rw (times-two e pos) (omega (arith, (round-IsNear false (e.magnitude * 2) e.scale fine).0))

scale-double : (e : Float64) → e.negative ≡ false → (times e two).scale ≤ e.scale
scale-double e pos = rw (times-two e pos) (scale-round false (e.magnitude * 2) e.scale)

leb-of : (a b : ℕ) → ltb b a ≡ false → a ≤ b
leb-of a b h = ground arith

-- An average that a rate does not double is at least 499 thousandths of it.
IsAbove-half :
    (r : ℕ) (e : Float64)
    → 100 < r
    → r < 2 ^ 63
    → e.negative ≡ false
    → e.scale ≤ 1074
    → exceeds (float64 r) (times e two) ≡ false
    → IsAbove (499 * r) 1000 e
unfolding IsAbove at_scale
IsAbove-half r e many small pos fine h =
    let t = times e two in
    let k = max (float64 r).scale t.scale in
    let least = leb-of (at_scale k (float64 r)) (at_scale k t) (
      sym
        (exceeds-positive (float64 r) t (negative-float64 r small) (negative-times e two pos refl))
      ∙ h) in
    let at = at_scale-float64 r k small in
    let low =
      coarser (float_of r) 1 t.scale k t.magnitude (omega arith) (omega (arith, least, at)) in
    let high = finer (float_of r) 1 t.scale e.scale t.magnitude (scale-double e pos) low in
    omega (
      arith,
      high,
      double-near e pos fine,
      mul-le-mul_right (2 ^ e.scale) (float_of-near r (omega arith) small).1,
    )

spike-exceeds :
    (r : ℕ) (e : Float64)
    → is_spike e r ≡ true
    → (exceeds (float64 r) (times e two) ≡ true) × (greater r 100 ≡ true)
unfolding is_spike
spike-exceeds r e h = ground arith

many_of : (r : ℕ) → greater r 100 ≡ true → (100 < r) × (r < 2 ^ 63)
many_of r h = ground arith

-- Every alert is one by the comment's condition as well: where the rate is more than double the average
-- that it is part of, it is more than double the average before, if that is not negative and a multiple
-- of 2^-1074.
pub is_spike-history :
    (r : ℕ) (e : Float64)
    → e.negative ≡ false
    → e.scale ≤ 1074
    → is_spike (smooth e r) r ≡ true
    → is_above_history e r ≡ true
is_spike-history r e pos fine h =
    let spike = spike-exceeds r (smooth e r) h in
    let many = many_of r spike.1 in
    elim (Bool-cases (exceeds (float64 r) (times e two))) [
      | inl doubled ↦ rw (doubled, spike.1) refl
      | inr not_doubled ↦
          (let half = IsAbove-half r e many.0 many.1 pos fine not_doubled in
            let next =
              IsAbove-smooth 499 590 r e many.0 many.1 pos (inr (omega arith)) (omega arith) half in
            let calm = silent r (smooth e r) many.0 many.1 (negative-smooth e r pos many.1) (
              IsAbove-weaken (590 * r) 1000 (510 * r) 1000 (smooth e r) (omega arith) (omega arith)
                next) in
            absurd (cc))
    ]
