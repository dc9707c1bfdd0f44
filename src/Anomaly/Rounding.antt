-- ===== src/Anomaly/Rounding.antt =====
-- Rounding gives a number that is nearest to the exact result.
use Prim.Native.Nat.{◌^◌, max}
use native.Mathlib.Nat.{
  pow-succ', one-le-pow, pow-le-pow_right, mod-lt, div-add-mod', mul_assoc, one-mul,
}
use mathlib.Core.Path.{subst}
use nex_pulse.Base.{
  ℕ, zero, suc, ◌+◌, ◌-◌, ◌*◌, ◌/◌, ◌%◌, ◌≡◌, ◌≤◌, ◌<◌, refl, ap, sym, ◌∙◌, Bool, true, false, ◌&&◌,
  ◌||◌, ltb, ◌==◌, if◌then◌else◌, arith, Bool-cases, ◌⊎◌, inl, inr,
}
use nex_pulse.Anomaly.Float64.{size, size_within, round_off, round, at_scale}
use nex_pulse.Anomaly.Size.{IsSize, size-IsSize}

-- `v` is nearest to `m` among the multiples of `u`.
abbrev pub IsNear : ℕ → ℕ → ℕ → Type 0
IsNear u m v = (2 * v ≤ 2 * m + u) × (2 * m ≤ 2 * v + u)

-- Up or down, from a remainder.
near :
    (up : Bool) (q u r : ℕ)
    → r < u
    → (up ≡ true → u ≤ 2 * r)
    → (up ≡ false → 2 * r ≤ u)
    → IsNear u (q * u + r) ((if up then q + 1 else q) * u)
near true q u r below high low = let h = high refl in (grind arith, grind arith)
near false q u r below high low = let l = low refl in (omega arith, omega arith)

pub pow_add : (a b : ℕ) → 2 ^ (a + b) ≡ 2 ^ a * 2 ^ b
pow_add zero b =
    let none_more : zero + b ≡ b = omega arith in ap (λ n. 2 ^ n) none_more ∙ sym (one-mul (2 ^ b))
pow_add (suc a) b =
    let next : suc a + b ≡ suc (a + b) = omega arith in
    ap (λ n. 2 ^ n) next
    ∙ pow-succ' 2 (a + b)
    ∙ ap (λ n. 2 * n) (pow_add a b)
    ∙ sym (mul_assoc 2 (2 ^ a) (2 ^ b))
    ∙ ap (λ n. n * 2 ^ b) (sym (pow-succ' 2 a))

-- The two shifts of a rounded magnitude make up the cut.
shifts : (q k cut : ℕ) → q * 2 ^ (cut - k) * 2 ^ (k - (k - cut)) ≡ q * 2 ^ cut
shifts q k cut =
    let whole : cut - k + (k - (k - cut)) ≡ cut = omega arith in
    mul_assoc q (2 ^ (cut - k)) (2 ^ (k - (k - cut)))
    ∙ ap (λ n. q * n) (sym (pow_add (cut - k) (k - (k - cut))))
    ∙ ap (λ n. q * 2 ^ n) whole

-- The quotient, rounded to nearest with ties to even.
pub quotient-IsNear :
    (m u : ℕ)
    → 0 < u
    → IsNear u m (
        (if ltb u (2 * (m % u)) || (2 * (m % u) == u && m / u % 2 == 1) then m / u + 1 else m / u)
        * u)
quotient-IsNear m u pos =
    let r = m % u in
    let q = m / u in
    let up = ltb u (2 * r) || (2 * r == u && q % 2 == 1) in
    subst (λ n. IsNear u n ((if up then q + 1 else q) * u)) (div-add-mod' m u)
      (near up q u r (mod-lt m pos) (λ h. ground arith) (λ h. ground arith))

-- At the scale of the exact result, the rounded one is off by at most half of the last place that is
-- kept.
round_off-IsNear :
    (negative : Bool) (m k cut : ℕ) → IsNear (2 ^ cut) m (at_scale k (round_off negative m k cut))
unfolding round_off at_scale
round_off-IsNear negative m k cut =
    let u = 2 ^ cut in
    let r = m % u in
    let q = m / u in
    let up = ltb u (2 * r) || (2 * r == u && q % 2 == 1) in
    rw (shifts (if up then q + 1 else q) k cut)
      (quotient-IsNear m u (one-le-pow cut 2 (omega arith)))

pub half_below : (m : ℕ) → 2 ^ size (suc m) ≤ 2 * suc m
unfolding IsSize
half_below m = (size-IsSize (suc m)).1 (omega arith)

-- The last place that 53 bits keep.
pub last_place : (m : ℕ) → (size m - 53 ≡ 0) ⊎ (2 ^ 53 * 2 ^ (size m - 53) ≤ 2 * m)
unfolding size size_within
last_place zero = inl refl
last_place (suc m) = elim (Bool-cases (ltb 53 (size (suc m)))) [
  | inl many ↦ inr (
      let whole : 53 + (size (suc m) - 53) ≡ size (suc m) = ground arith in
      let split = pow_add 53 (size (suc m) - 53) in rw (← split, whole) (half_below m))
  | inr few ↦ inl (ground arith)
]

-- Rounding is off by at most one part in 2^53, if the 53 bits decide what is kept.
pub round-IsClose :
    (negative : Bool) (m k : ℕ)
    → k - 1074 ≤ size m - 53
    → (2 ^ 53 * at_scale k (round negative m k) ≤ 2 ^ 53 * m + m)
      × (2 ^ 53 * m ≤ 2 ^ 53 * at_scale k (round negative m k) + m)
unfolding round
round-IsClose negative m k fine =
    let cut : max (size m - 53) (k - 1074) ≡ size m - 53 = omega arith in
    let near = round_off-IsNear negative m k (size m - 53) in
    rw cut (elim (last_place m) [
      | inl exact ↦
          (let sharp = ap (λ n. 2 ^ n) exact in
            (omega (arith, near.0, near.1, sharp), omega (arith, near.0, near.1, sharp)))
      | inr small ↦ (omega (arith, near.0, small), omega (arith, near.1, small))
    ])

-- Rounding is off by at most one part in 2^53, if the exact result is a multiple of 2^-1074.
pub round-IsNear :
    (negative : Bool) (m k : ℕ)
    → k ≤ 1074
    → (2 ^ 53 * at_scale k (round negative m k) ≤ 2 ^ 53 * m + m)
      × (2 ^ 53 * m ≤ 2 ^ 53 * at_scale k (round negative m k) + m)
round-IsNear negative m k fine = round-IsClose negative m k (omega arith)

-- The 53 bits decide for a number that is not below 1.
pub whole-IsFine : (m k : ℕ) → 2 ^ k ≤ m → k - 1074 ≤ size m - 53
unfolding IsSize
whole-IsFine m k one = elim (Bool-cases (ltb k (size m))) [
  | inl more ↦ ground arith
  | inr few ↦
      (let less : size m ≤ k = ground arith in
        let grows = pow-le-pow_right {n = 2} (omega arith) less in
        absurd (omega (arith, (size-IsSize m).0, grows)))
]
