-- ===== src/Anomaly/Above.antt =====
-- Lower bounds on float64 values, as fractions, through the operations.
use Prim.Native.Nat.{◌^◌, max}
use native.Mathlib.Nat.{
  mul-le-mul, mul-le-mul_left, mul-le-mul_right, le_of_mul-le-mul_right, one-le-pow,
}
use nex_pulse.Base.{
  ℕ, ◌+◌, ◌-◌, ◌*◌, ◌≡◌, ◌≤◌, ◌<◌, ap, sym, ◌∙◌, Bool, false, not, ◌&&◌, ◌||◌, arith,
}
use nex_pulse.Anomaly.Float64.{Float64, round_off, round, at_scale, plus, times}
use nex_pulse.Anomaly.Rounding.{pow_add, round-IsClose, whole-IsFine}

-- The magnitude is at least `n / d`.
unfoldable pub IsAbove : ℕ → ℕ → Float64 → Type 0
IsAbove n d x = n * 2 ^ x.scale ≤ d * x.magnitude

-- The same of an exact result, `m / 2 ^ k`.
unfoldable pub IsOver : ℕ → ℕ → ℕ → ℕ → Type 0
IsOver n d m k = n * 2 ^ k ≤ d * m

times_swap : (a b c d : ℕ) → a * b * (c * d) ≡ a * c * (b * d)
times_swap a b c d = omega arith

pub finer : (n d s k m : ℕ) → s ≤ k → n * 2 ^ s ≤ d * m → n * 2 ^ k ≤ d * (m * 2 ^ (k - s))
finer n d s k m le h =
    let split : s + (k - s) ≡ k = omega arith in
    let power = sym (pow_add s (k - s)) ∙ ap (λ e. 2 ^ e) split in
    omega (arith, mul-le-mul_right (2 ^ (k - s)) h, ap (λ t. n * t) power)

pub coarser : (n d s k m : ℕ) → s ≤ k → n * 2 ^ k ≤ d * (m * 2 ^ (k - s)) → n * 2 ^ s ≤ d * m
coarser n d s k m le h =
    let split : s + (k - s) ≡ k = omega arith in
    let power = sym (pow_add s (k - s)) ∙ ap (λ e. 2 ^ e) split in
    le_of_mul-le-mul_right {m = n * 2 ^ s} {n = d * m} {k = 2 ^ (k - s)}
      (omega (arith, h, ap (λ t. n * t) power)) (one-le-pow (k - s) 2 (omega arith))

-- Rounding keeps a lower bound but for one part in a thousand, for a number that is not below 1.
pub scale-round : (negative : Bool) (m k : ℕ) → (round negative m k).scale ≤ k
unfolding round round_off
scale-round negative m k = omega arith

pub IsAbove-round :
    (negative : Bool) (n d m k : ℕ)
    → 2 ^ k ≤ m
    → IsOver n d m k
    → IsAbove (999 * n) (1000 * d) (round negative m k)
unfolding IsAbove IsOver at_scale
IsAbove-round negative n d m k one over =
    let near = round-IsClose negative m k (whole-IsFine m k one) in
    let x = round negative m k in
    let v = x.magnitude * 2 ^ (k - x.scale) in
    let close : 999 * m ≤ 1000 * v = omega (arith, near.1) in
    coarser (999 * n) (1000 * d) x.scale k x.magnitude (scale-round negative m k)
      (omega (arith, mul-le-mul_left 999 over, mul-le-mul_left d close))

-- A bound of at least 1.
IsOver-one : (n d m k : ℕ) → 0 < d → d ≤ n → IsOver n d m k → 2 ^ k ≤ m
unfolding IsOver
IsOver-one n d m k some_d le over =
    le_of_mul-le-mul_right {m = 2 ^ k} {n = m} {k = d}
      (omega (arith, over, mul-le-mul_right (2 ^ k) le)) some_d

-- A weaker fraction.
IsOver-weaken : (n d n' d' m k : ℕ) → 0 < d → n' * d ≤ n * d' → IsOver n d m k → IsOver n' d' m k
unfolding IsOver
IsOver-weaken n d n' d' m k some_d le over =
    le_of_mul-le-mul_right {m = n' * 2 ^ k} {n = d' * m} {k = d}
      (omega (arith, mul-le-mul_right (2 ^ k) le, mul-le-mul_left d' over)) some_d

pub IsAbove-weaken :
    (n d n' d' : ℕ) (x : Float64) → 0 < d → n' * d ≤ n * d' → IsAbove n d x → IsAbove n' d' x
unfolding IsAbove IsOver
IsAbove-weaken n d n' d' x = IsOver-weaken n d n' d' x.magnitude x.scale

product :
    (n d n' d' : ℕ) (x y : Float64)
    → IsAbove n d x
    → IsAbove n' d' y
    → IsOver (n * n') (d * d') (x.magnitude * y.magnitude) (x.scale + y.scale)
unfolding IsAbove IsOver
product n d n' d' x y above above' =
    omega (arith, mul-le-mul above above', ap (λ t. n * n' * t) (pow_add x.scale y.scale))

-- Products and sums of numbers that are not negative.
pub IsAbove-times :
    (n d n' d' : ℕ) (x y : Float64)
    → 0 < d * d'
    → d * d' ≤ n * n'
    → IsAbove n d x
    → IsAbove n' d' y
    → IsAbove (999 * (n * n')) (1000 * (d * d')) (times x y)
unfolding times IsAbove
IsAbove-times n d n' d' x y some_d le above above' =
    let over : IsOver (n * n') (d * d') (x.magnitude * y.magnitude) (x.scale + y.scale) =
      product n d n' d' x y above above' in
    IsAbove-round ((x.negative && not y.negative) || (not x.negative && y.negative)) (n * n')
      (d * d') (x.magnitude * y.magnitude) (x.scale + y.scale)
      (IsOver-one (n * n') (d * d') (x.magnitude * y.magnitude) (x.scale + y.scale) some_d le over)
      over

pub IsAbove-at_scale :
    (n d k : ℕ) (x : Float64) → x.scale ≤ k → IsAbove n d x → n * 2 ^ k ≤ d * at_scale k x
unfolding IsAbove at_scale
IsAbove-at_scale n d k x le above = finer n d x.scale k x.magnitude le above

pub IsAbove-plus :
    (n n' d : ℕ) (x y : Float64)
    → x.negative ≡ false
    → y.negative ≡ false
    → 0 < d
    → d ≤ n + n'
    → IsAbove n d x
    → IsAbove n' d y
    → IsAbove (999 * (n + n')) (1000 * d) (plus x y)
unfolding plus IsOver
IsAbove-plus n n' d x y pos pos' some_d le above above' =
    let k = max x.scale y.scale in
    let a = IsAbove-at_scale n d k x (omega arith) above in
    let b = IsAbove-at_scale n' d k y (omega arith) above' in
    let over : IsOver (n + n') d (at_scale k x + at_scale k y) k = omega (arith, a, b) in
    rw (pos, pos')
      (IsAbove-round false (n + n') d (at_scale k x + at_scale k y) k
        (IsOver-one (n + n') d (at_scale k x + at_scale k y) k some_d le over) over)
