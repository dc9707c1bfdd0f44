-- ===== src/Anomaly/Smoothing.antt =====
-- How far one second moves the average of the detector, with the rounding of every operation.
use Prim.Native.Nat.{◌^◌, max}
use native.Mathlib.Nat.{mul-le-mul, mul-le-mul_right}
use nex_pulse.Base.{
  ℕ, zero, suc, ◌+◌, ◌*◌, ◌≡◌, ◌≤◌, ◌<◌, refl, ap, Bool, true, false, ltb, arith, ◌⊎◌, inl, inr,
}
use nex_pulse.Anomaly.Float64.{Float64, round_off, round, at_scale, plus, times, negate, float64}
use nex_pulse.Anomaly.Detector.{alpha, smooth}
use nex_pulse.Anomaly.Above.{
  IsAbove, IsOver, IsAbove-round, IsAbove-weaken, IsAbove-times, IsAbove-plus,
}

-- The weight of the average.
abbrev beta : Float64
beta = record { negative = false; magnitude = 7205759403792794; scale = 53 }

smooth-beta : (e : Float64) (r : ℕ) → smooth e r ≡ plus (times alpha (float64 r)) (times beta e)
unfolding smooth plus negate
smooth-beta e r = refl

negative-round : (b : Bool) (m k : ℕ) → (round b m k).negative ≡ b
unfolding round round_off
negative-round b m k = refl

pub negative-float64 : (r : ℕ) → r < 2 ^ 63 → (float64 r).negative ≡ false
unfolding float64
negative-float64 r small =
    let yes : ltb r (2 ^ 63) ≡ true = ground arith in rw yes (negative-round false r 0)

pub negative-times :
    (x y : Float64) → x.negative ≡ false → y.negative ≡ false → (times x y).negative ≡ false
unfolding times
negative-times x y pos pos' =
    rw (pos, pos') (negative-round false (x.magnitude * y.magnitude) (x.scale + y.scale))

negative-plus :
    (x y : Float64) → x.negative ≡ false → y.negative ≡ false → (plus x y).negative ≡ false
unfolding plus
negative-plus x y pos pos' =
    rw (pos, pos')
      (negative-round false (at_scale (max x.scale y.scale) x + at_scale (max x.scale y.scale) y)
        (max x.scale y.scale))

pub negative-smooth :
    (e : Float64) (r : ℕ) → e.negative ≡ false → r < 2 ^ 63 → (smooth e r).negative ≡ false
negative-smooth e r pos small = rw (smooth-beta e r) (
    negative-plus (times alpha (float64 r)) (times beta e)
      (negative-times alpha (float64 r) refl (negative-float64 r small))
      (negative-times beta e refl pos))

pub IsAbove-float64 : (r : ℕ) → 0 < r → r < 2 ^ 63 → IsAbove (999 * r) 1000 (float64 r)
unfolding float64 IsOver
IsAbove-float64 r some_event small =
    let yes : ltb r (2 ^ 63) ≡ true = ground arith in
    rw yes (IsAbove-round false r 1 r 0 (omega arith) (omega arith))

alpha-IsAbove : IsAbove 1 5 alpha
unfolding IsAbove
alpha-IsAbove = omega arith

beta-IsAbove : IsAbove 4 5 beta
unfolding IsAbove
beta-IsAbove = omega arith

pub none_above : (n d : ℕ) (x : Float64) → n ≡ 0 → IsAbove n d x
unfolding IsAbove
none_above n d x nought = omega (arith, ap (λ t. t * 2 ^ x.scale) nought)

-- The share of the rate.
share : (r : ℕ) → 100 < r → r < 2 ^ 63 → IsAbove (998001 * r) 5000000 (times alpha (float64 r))
share r many small =
    IsAbove-weaken (999 * (1 * (999 * r))) 5000000 (998001 * r) 5000000 (times alpha (float64 r))
      (omega arith) (omega arith)
      (IsAbove-times 1 5 (999 * r) 1000 alpha (float64 r) (omega arith) (omega arith) alpha-IsAbove
        (IsAbove-float64 r (omega arith) small))

-- The share of the average.
rest :
    (a r : ℕ) (e : Float64)
    → 100 < r
    → (a ≡ 0) ⊎ (100 ≤ a)
    → IsAbove (a * r) 1000 e
    → IsAbove (3996 * (a * r)) 5000000 (times beta e)
rest zero r e many some_share above =
    none_above (3996 * (0 * r)) 5000000 (times beta e) (omega arith)
rest (suc a) r e many (inl none_yet) above = absurd (omega arith)
rest (suc a) r e many (inr some_share) above =
    let grows = mul-le-mul some_share many in
    IsAbove-weaken (999 * (4 * (suc a * r))) 5000000 (3996 * (suc a * r)) 5000000 (times beta e)
      (omega arith) (omega arith)
      (IsAbove-times 4 5 (suc a * r) 1000 beta e (omega arith) (omega (arith, grows)) beta-IsAbove
        above)

-- One second at the rate `r` moves an average of at least `a` thousandths of it to at least `c`.
pub IsAbove-smooth :
    (a c r : ℕ) (e : Float64)
    → 100 < r
    → r < 2 ^ 63
    → e.negative ≡ false
    → (a ≡ 0) ⊎ (100 ≤ a)
    → c * 5000000 ≤ 999 * (998001 + 3996 * a)
    → IsAbove (a * r) 1000 e
    → IsAbove (c * r) 1000 (smooth e r)
IsAbove-smooth a c r e many small pos some_share le above = rw (smooth-beta e r) (
    IsAbove-weaken (999 * (998001 * r + 3996 * (a * r))) 5000000000 (c * r) 1000
      (plus (times alpha (float64 r)) (times beta e)) (omega arith)
      (omega (arith, mul-le-mul_right r le))
      (IsAbove-plus (998001 * r) (3996 * (a * r)) 5000000 (times alpha (float64 r)) (times beta e)
        (negative-times alpha (float64 r) refl (negative-float64 r small))
        (negative-times beta e refl pos) (omega arith) (omega arith) (share r many small)
        (rest a r e many some_share above)))
