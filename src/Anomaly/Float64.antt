-- ===== src/Anomaly/Float64.antt =====
-- Go's float64 on the finite numbers: a sign, and a magnitude that is a number over a power of two.
-- Each operation rounds its exact result to 53 bits, or to a multiple of 2^-1074, ties to even.
use Prim.Native.Nat.{◌^◌, max}
use nex_pulse.Base.{
  ℕ, zero, suc, ◌+◌, ◌-◌, ◌*◌, ◌/◌, ◌%◌, Bool, true, false, not, ◌&&◌, ◌||◌, ltb, leb, ◌==◌,
  if◌then◌else◌,
}

pub record Float64 : Type 0 where
  pub negative : Bool
  pub magnitude : ℕ
  pub scale : ℕ

-- How many bits a number has; as many rounds as the number are enough.
unfoldable pub size_within : ℕ → ℕ → ℕ
size_within zero m = 0
size_within (suc rounds) m = elim (m == 0) [ true ↦ 0 | false ↦ size_within rounds (m / 2) + 1 ]

unfoldable pub size : ℕ → ℕ
unfolding size_within
size m = size_within m m

-- `m / 2 ^ k` without its last `cut` bits, rounded to nearest, ties to even.
unfoldable pub round_off : Bool → ℕ → ℕ → ℕ → Float64
round_off negative m k cut =
    let q = m / 2 ^ cut in
    let r = m % 2 ^ cut in
    let up = ltb (2 ^ cut) (2 * r) || (2 * r == 2 ^ cut && q % 2 == 1) in
    record {
      negative = negative;
      magnitude = (if up then q + 1 else q) * 2 ^ (cut - k);
      scale = k - cut;
    }

unfoldable pub round : Bool → ℕ → ℕ → Float64
unfolding size round_off
round negative m k = round_off negative m k (max (size m - 53) (k - 1074))

-- The magnitude at a finer scale.
unfoldable pub at_scale : ℕ → Float64 → ℕ
at_scale k x = x.magnitude * 2 ^ (k - x.scale)

unfoldable pub plus : Float64 → Float64 → Float64
unfolding round at_scale
plus x y =
    let k = max x.scale y.scale in
    let a = at_scale k x in
    let b = at_scale k y in
    let sum = round x.negative (a + b) k in
    let left = round x.negative (a - b) k in
    let right = round y.negative (b - a) k in
    if (x.negative && y.negative) || (not x.negative && not y.negative)
    then sum
    else if leb b a
    then left
    else right

unfoldable pub times : Float64 → Float64 → Float64
unfolding round
times x y =
    round ((x.negative && not y.negative) || (not x.negative && y.negative))
      (x.magnitude * y.magnitude) (x.scale + y.scale)

unfoldable pub negate : Float64 → Float64
negate x = record x { negative = not x.negative }

-- `x > y`
unfoldable pub exceeds : Float64 → Float64 → Bool
unfolding at_scale
exceeds x y =
    let k = max x.scale y.scale in
    let a = at_scale k x in
    let b = at_scale k y in
    if x.negative then y.negative && ltb a b else if y.negative then ltb 0 (a + b) else ltb b a

-- `float64(n)` of an int64, given by its bits.
unfoldable pub float64 : ℕ → Float64
unfolding round
float64 n = if ltb n (2 ^ 63) then round false n 0 else round true (2 ^ 64 - n) 0
