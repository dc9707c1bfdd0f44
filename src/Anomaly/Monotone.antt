-- ===== src/Anomaly/Monotone.antt =====
-- Go's conversion of an int64 to float64 keeps the order.
use Prim.Native.Nat.{◌^◌, max}
use native.Mathlib.Nat.{
  one-le-pow, div-add-mod', mul-one, le-div_iff_mul-le, pow-le-pow_right, div-lt_iff_lt-mul,
  div-mul-le_self, mul-le-mul_right,
}
use mathlib.Core.Path.{subst}
use nex_pulse.Base.{
  ℕ, ◌+◌, ◌-◌, ◌*◌, ◌/◌, ◌%◌, ◌≡◌, ◌≤◌, ◌<◌, refl, ap, sym, true, false, ◌&&◌, ◌||◌, ltb, ◌==◌,
  if◌then◌else◌, arith, Bool-cases, ◌⊎◌, inl, inr,
}
use nex_pulse.Anomaly.Float64.{size, round_off, round, float64, exceeds}
use nex_pulse.Anomaly.Size.{IsSize, size-IsSize}
use nex_pulse.Anomaly.Rounding.{pow_add, last_place}

-- The quotient that is kept, by the remainder.
abbrev keep : ℕ → ℕ → ℕ → ℕ
keep u q r = if ltb u (2 * r) || (2 * r == u && q % 2 == 1) then q + 1 else q

keep-le : (u q q' r r' : ℕ) → q ≤ q' → (q ≡ q' → r ≤ r') → keep u q r ≤ keep u q' r'
keep-le u q q' r r' below same = elim (Bool-cases (q == q')) [
  | inl e ↦
      (let e' : q ≡ q' = ground arith in
        let le = same e' in let odd = ap (λ n. n % 2) e' in ground arith)
  | inr e ↦ ground arith
]

-- A number without the bits that a cut drops.
unfoldable pub cut_off : ℕ → ℕ → ℕ
cut_off m cut = keep (2 ^ cut) (m / 2 ^ cut) (m % 2 ^ cut) * 2 ^ cut

round_off-cut_off :
    (m cut : ℕ)
    → round_off false m 0 cut ≡ record { negative = false; magnitude = cut_off m cut; scale = 0 }
unfolding round_off cut_off
round_off-cut_off m cut =
    let all : cut - 0 ≡ cut = omega arith in
    let none_left : 0 - cut ≡ 0 = omega arith in rw (all, none_left) refl

-- What float64 makes of an int64 that is not negative is an integer.
unfoldable pub float_of : ℕ → ℕ
unfolding cut_off
float_of n = cut_off n (size n - 53)

pub float64-float_of :
    (n : ℕ)
    → n < 2 ^ 63
    → float64 n ≡ record { negative = false; magnitude = float_of n; scale = 0 }
unfolding float64 float_of round
float64-float_of n small =
    let cut : max (size n - 53) (0 - 1074) ≡ size n - 53 = omega arith in
    let yes : ltb n (2 ^ 63) ≡ true = ground arith in
    rw (yes, cut) (round_off-cut_off n (size n - 53))

pow_pos : (k : ℕ) → 0 < 2 ^ k
pow_pos k = one-le-pow k 2 (omega arith)

div_mono : (m n cut : ℕ) → m ≤ n → m / 2 ^ cut ≤ n / 2 ^ cut
div_mono m n cut le =
    (le-div_iff_mul-le (pow_pos cut)).1 (omega (arith, div-mul-le_self m (2 ^ cut)))

cut_off-le : (m n cut : ℕ) → m ≤ n → cut_off m cut ≤ cut_off n cut
unfolding cut_off
cut_off-le m n cut le =
    let u = 2 ^ cut in
    let whole = div-add-mod' m u in
    let whole' = div-add-mod' n u in
    mul-le-mul_right u (
      keep-le u (m / u) (n / u) (m % u) (n % u) (div_mono m n cut le)
        (λ e. (let e' = ap (λ q. q * u) e in omega (arith, whole, whole', e'))))

-- A number of at most 53 bits above the cut does not pass the next power of two.
cut_off-below : (m cut : ℕ) → m < 2 ^ 53 * 2 ^ cut → cut_off m cut ≤ 2 ^ 53 * 2 ^ cut
unfolding cut_off
cut_off-below m cut small =
    let u = 2 ^ cut in
    mul-le-mul_right {m = keep u (m / u) (m % u)} {n = 2 ^ 53} u
      (let few = (div-lt_iff_lt-mul {y = 2 ^ 53} (pow_pos cut)).1 small in ground arith)

cut_off-above : (m cut : ℕ) → 2 ^ 52 * 2 ^ cut ≤ m → 2 ^ 52 * 2 ^ cut ≤ cut_off m cut
unfolding cut_off
cut_off-above m cut big =
    let u = 2 ^ cut in
    mul-le-mul_right {m = 2 ^ 52} {n = keep u (m / u) (m % u)} u
      (let many = (le-div_iff_mul-le {x = 2 ^ 52} (pow_pos cut)).1 big in ground arith)

-- The bits of a number against its cut.
cut_above : (m : ℕ) → m < 2 ^ 53 * 2 ^ (size m - 53)
unfolding IsSize
cut_above m =
    let more : size m ≤ 53 + (size m - 53) = omega arith in
    let grows = pow-le-pow_right {n = 2} (omega arith) more in
    omega (arith, (size-IsSize m).0, grows, pow_add 53 (size m - 53))

cut_below : (m : ℕ) → 0 < size m - 53 → 2 ^ 52 * 2 ^ (size m - 53) ≤ m
cut_below m some_cut = elim (last_place m) [
  | inl none_cut ↦ absurd (omega arith)
  | inr small ↦ omega arith
]

next_cut : (a b : ℕ) → a < b → 2 ^ 53 * 2 ^ a ≤ 2 ^ 52 * 2 ^ b
next_cut a b lt =
    let above : 1 + a ≤ b = omega arith in
    let grows = pow-le-pow_right {n = 2} (omega arith) above in omega (arith, grows, pow_add 1 a)

order : (a b : ℕ) → (a < b) ⊎ ((b < a) ⊎ (a ≡ b))
order a b = ground arith

larger_cut :
    (m n : ℕ) → size m - 53 < size n - 53 → cut_off m (size m - 53) ≤ cut_off n (size n - 53)
larger_cut m n lt = omega (
  arith,
  cut_off-below m (size m - 53) (cut_above m),
  next_cut (size m - 53) (size n - 53) lt,
  cut_off-above n (size n - 53) (cut_below n (omega arith)),
)

smaller_cut : (m n : ℕ) → size n - 53 < size m - 53 → n < m
smaller_cut m n lt =
    omega (arith, cut_above n, next_cut (size n - 53) (size m - 53) lt, cut_below m (omega arith))

-- The order is kept.
pub float_of-le : (m n : ℕ) → m ≤ n → float_of m ≤ float_of n
unfolding float_of
float_of-le m n le = elim (order (size m - 53) (size n - 53)) [
  | inl lt ↦ larger_cut m n lt
  | inr (inl gt) ↦ absurd (omega (arith, smaller_cut m n gt))
  | inr (inr e) ↦
      subst (λ c. cut_off m c ≤ cut_off n (size n - 53)) (sym e) (cut_off-le m n (size n - 53) le)
]

exceeds-float64 :
    (m n : ℕ)
    → m < 2 ^ 63
    → n < 2 ^ 63
    → exceeds (float64 m) (float64 n) ≡ ltb (float_of n) (float_of m)
unfolding exceeds
exceeds-float64 m n small small' =
    rw (float64-float_of m small, float64-float_of n small')
      (rw (mul-one (float_of m), mul-one (float_of n)) refl)

-- What a number exceeds, a larger one exceeds, and what exceeds it is not exceeded by a smaller one.
pub exceeds-larger :
    (m m' n n' : ℕ)
    → m' < 2 ^ 63
    → n' < 2 ^ 63
    → m ≤ m'
    → n ≤ n'
    → exceeds (float64 m) (float64 n') ≡ true
    → exceeds (float64 m') (float64 n) ≡ true
exceeds-larger m m' n n' small small' le le' h =
    let first = exceeds-float64 m n' (omega arith) small' in
    let second = exceeds-float64 m' n small (omega arith) in
    let more = float_of-le m m' le in let less = float_of-le n n' le' in ground arith

pub exceeds-smaller : (m n : ℕ) → n < 2 ^ 63 → m ≤ n → exceeds (float64 m) (float64 n) ≡ false
exceeds-smaller m n small le =
    let e = exceeds-float64 m n (omega arith) small in let less = float_of-le m n le in ground arith
