-- ===== src/Anomaly/Size.antt =====
-- The count of the bits of a number, for which as many rounds as the number are enough.
use Prim.Native.Nat.{◌^◌}
use native.Mathlib.Nat.{pow-succ'}
use nex_pulse.Base.{ℕ, zero, suc, ◌+◌, ◌*◌, ◌/◌, ◌≡◌, ◌≤◌, ◌<◌, refl, ap, ◌∙◌, arith}
use nex_pulse.Anomaly.Float64.{size_within, size}

pow_add_one : (k : ℕ) → 2 ^ (k + 1) ≡ 2 * 2 ^ k
pow_add_one k = let next : k + 1 ≡ suc k = omega arith in ap (λ n. 2 ^ n) next ∙ pow-succ' 2 k

size_within-zero : (rounds : ℕ) → size_within rounds 0 ≡ 0
unfolding size_within
size_within-zero zero = refl
size_within-zero (suc rounds) = refl

size_within-suc :
    (rounds m : ℕ) → size_within (suc rounds) (suc m) ≡ size_within rounds (suc m / 2) + 1
unfolding size_within
size_within-suc rounds m = ground arith

-- The bits `k` of `m`: it is below the power of two, and, if it is not zero, not below half of that.
unfoldable pub IsSize : ℕ → ℕ → Type 0
IsSize m k = (m < 2 ^ k) × (0 < m → 2 ^ k ≤ 2 * m)

IsSize-zero : (rounds : ℕ) → IsSize 0 (size_within rounds 0)
unfolding IsSize
IsSize-zero rounds = rw (size_within-zero rounds) (omega arith, λ pos. omega arith)

-- One bit more.
IsSize-double :
    (rounds q m : ℕ)
    → q ≡ m / 2
    → IsSize q (size_within rounds q)
    → 0 < m
    → IsSize m (size_within rounds q + 1)
unfolding IsSize
IsSize-double rounds zero m half small pos =
    rw (size_within-zero rounds) (omega arith, λ p. omega arith)
IsSize-double rounds (suc q) m half small pos =
    let step = pow_add_one (size_within rounds (suc q)) in
    let lower = small.1 (omega arith) in
    (omega (arith, small.0, step), λ p. omega (arith, lower, step))

size_within-IsSize : (rounds m : ℕ) → m ≤ rounds → IsSize m (size_within rounds m)
size_within-IsSize zero zero few = IsSize-zero zero
size_within-IsSize zero (suc m) few = elim few [ ]
size_within-IsSize (suc rounds) zero few = IsSize-zero (suc rounds)
size_within-IsSize (suc rounds) (suc m) few = rw (size_within-suc rounds m) (
    IsSize-double rounds (suc m / 2) (suc m) refl
      (size_within-IsSize rounds (suc m / 2) (omega arith)) (omega arith))

-- The rounds are enough: every number is below the power of two of its bits, and, if it is not zero,
-- not below half of that.
pub size-IsSize : (m : ℕ) → IsSize m (size m)
unfolding size
size-IsSize m = size_within-IsSize m m (omega arith)
