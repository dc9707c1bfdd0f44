-- ===== src/Anomaly/Steady.antt =====
-- When the detector falls silent, and what its alerts say of the average before them.
use Prim.Native.Nat.{◌^◌, max}
use native.Mathlib.Nat.{mul-le-mul_right}
use nex_pulse.Base.{
  ℕ, zero, suc, ◌-◌, ◌*◌, ◌≡◌, ◌≤◌, ◌<◌, refl, ap, sym, ◌∙◌, true, false, List, [], ◌∷◌, ◌++◌, ltb,
  arith, Bool-cases, inl, inr,
}
use nex_pulse.Anomaly.Float64.{Float64, round, at_scale, times, float64, exceeds}
use nex_pulse.Anomaly.Rounding.{round-IsClose, whole-IsFine}
use nex_pulse.Anomaly.Monotone.{float_of, float64-float_of}
use nex_pulse.Anomaly.Detector.{Detector, two, smooth, is_spike}
use nex_pulse.Anomaly.Above.{IsAbove, IsAbove-at_scale, IsAbove-weaken, IsAbove-times}
use nex_pulse.Anomaly.Smoothing.{
  negative-smooth, negative-times, negative-float64, none_above, IsAbove-smooth,
}
use nex_pulse.Anomaly.Seconds.{evaluate_all}
use nex_pulse.Anomaly.Alerts.{spikes, watching, evaluate_all-watching}

-- A number that is not negative against another.
pub exceeds-positive :
    (x y : Float64)
    → x.negative ≡ false
    → y.negative ≡ false
    → exceeds x y ≡ ltb (at_scale (max x.scale y.scale) y) (at_scale (max x.scale y.scale) x)
unfolding exceeds
exceeds-positive x y pos pos' = rw (pos, pos') refl

float64-round : (r : ℕ) → r < 2 ^ 63 → float64 r ≡ round false r 0
unfolding float64
float64-round r small = let yes : ltb r (2 ^ 63) ≡ true = ground arith in rw yes refl

-- The conversion is off by less than one part in a thousand.
pub float_of-near :
    (r : ℕ) → 0 < r → r < 2 ^ 63 → (1000 * float_of r ≤ 1001 * r) × (999 * r ≤ 1000 * float_of r)
unfolding at_scale
float_of-near r some_event small =
    let near = round-IsClose false r 0 (whole-IsFine r 0 (omega arith)) in
    let e = sym (float64-round r small) ∙ float64-float_of r small in
    let v : at_scale 0 (round false r 0) ≡ float_of r * 1 = ap (at_scale 0) e in
    (omega (arith, near.0, v), omega (arith, near.1, v))

pub at_scale-float64 : (r k : ℕ) → r < 2 ^ 63 → at_scale k (float64 r) ≡ float_of r * 2 ^ k
unfolding at_scale
at_scale-float64 r k small =
    rw (float64-float_of r small)
      (let whole : k - 0 ≡ k = omega arith in ap (λ n. float_of r * 2 ^ n) whole)

two-IsAbove : IsAbove 2 1 two
unfolding IsAbove
two-IsAbove = omega arith

pub not_below : (a b : ℕ) → a ≤ b → ltb b a ≡ false
not_below a b le = ground arith

-- An average above 510 thousandths of the rate.
pub silent :
    (r : ℕ) (e : Float64)
    → 100 < r
    → r < 2 ^ 63
    → e.negative ≡ false
    → IsAbove (510 * r) 1000 e
    → exceeds (float64 r) (times e two) ≡ false
silent r e many small pos above =
    let t = times e two in
    let k = max (float64 r).scale t.scale in
    let b =
      IsAbove-at_scale (999 * (510 * r * 2)) (1000 * (1000 * 1)) k t (omega arith)
        (IsAbove-times (510 * r) 1000 2 1 e two (omega arith) (omega arith) above two-IsAbove) in
    let near = float_of-near r (omega arith) small in
    let high = mul-le-mul_right (2 ^ k) near.0 in
    exceeds-positive (float64 r) t (negative-float64 r small) (negative-times e two pos refl)
    ∙ not_below (at_scale k (float64 r)) (at_scale k t)
        (rw (at_scale-float64 r k small) (omega (arith, b, high)))

-- Of what the detector compares with: not more than 100 events are no spike.
quiet-is_spike : (r : ℕ) (e : Float64) → r ≤ 100 → is_spike e r ≡ false
unfolding is_spike
quiet-is_spike r e few = ground arith

silent-is_spike :
    (r : ℕ) (e : Float64)
    → 100 < r
    → r < 2 ^ 63
    → e.negative ≡ false
    → IsAbove (510 * r) 1000 e
    → is_spike e r ≡ false
unfolding is_spike
silent-is_spike r e many small pos above = let s = silent r e many small pos above in ground arith

unfoldable pub repeat : ℕ → ℕ → List ℕ
repeat zero r = []
repeat (suc n) r = r ∷ repeat n r

-- From 485 thousandths of the rate on, the average passes and stays above 510.
spikes-above :
    (n r : ℕ) (e : Float64)
    → 100 < r
    → r < 2 ^ 63
    → e.negative ≡ false
    → IsAbove (485 * r) 1000 e
    → spikes e (repeat n r) ≡ []
unfolding spikes repeat
spikes-above zero r e many small pos above = refl
spikes-above (suc n) r e many small pos above =
    let next = IsAbove-smooth 485 586 r e many small pos (inr (omega arith)) (omega arith) above in
    let pos' = negative-smooth e r pos small in
    let calm = silent-is_spike r (smooth e r) many small pos' (
      IsAbove-weaken (586 * r) 1000 (510 * r) 1000 (smooth e r) (omega arith) (omega arith) next) in
    rw calm (
      spikes-above n r (smooth e r) many small pos' (
        IsAbove-weaken (586 * r) 1000 (485 * r) 1000 (smooth e r) (omega arith) (omega arith) next))

spikes-quiet : (n r : ℕ) (e : Float64) → r ≤ 100 → spikes e (repeat n r) ≡ []
unfolding spikes repeat
spikes-quiet zero r e few = refl
spikes-quiet (suc n) r e few =
    rw (quiet-is_spike r (smooth e r) few) (spikes-quiet n r (smooth e r) few)

-- Three seconds at a rate bring any average to 485 thousandths of it.
third : Float64 → ℕ → Float64
third e r = smooth (smooth (smooth e r) r) r

IsAbove-third :
    (r : ℕ) (e : Float64)
    → 100 < r
    → r < 2 ^ 63
    → e.negative ≡ false
    → IsAbove (485 * r) 1000 (third e r)
unfolding third
IsAbove-third r e many small pos =
    let first =
      IsAbove-smooth 0 199 r e many small pos (inl refl) (omega arith)
        (none_above (0 * r) 1000 e (omega arith)) in
    let pos' = negative-smooth e r pos small in
    let second =
      IsAbove-smooth 199 358 r (smooth e r) many small pos' (inr (omega arith)) (omega arith)
        first in
    IsAbove-smooth 358 485 r (smooth (smooth e r) r) many small
      (negative-smooth (smooth e r) r pos' small) (inr (omega arith)) (omega arith) second

spikes-third :
    (n r : ℕ) (e : Float64) → r < 2 ^ 63 → e.negative ≡ false → spikes (third e r) (repeat n r) ≡ []
unfolding third
spikes-third n r e small pos = elim (Bool-cases (ltb 100 r)) [
  | inl many ↦
      spikes-above n r (third e r) (ground arith) small
        (negative-smooth (smooth (smooth e r) r) r
          (negative-smooth (smooth e r) r (negative-smooth e r pos small) small) small)
        (IsAbove-third r e (ground arith) small pos)
  | inr few ↦ spikes-quiet n r (third e r) (ground arith)
]

spikes-steady :
    (n r : ℕ) (e : Float64)
    → r < 2 ^ 63
    → e.negative ≡ false
    → spikes e (repeat (suc (suc (suc n))) r) ≡ spikes e (repeat 3 r)
unfolding spikes repeat third
spikes-steady n r e small pos = rw (spikes-third n r e small pos) refl

-- However high a steady rate is, and whatever the average before it: a detector that has seen an event
-- alerts at most in the first three seconds of that rate, and then never while it lasts.
pub alerts-evaluate_all :
    (n r count : ℕ) (ema : Float64) (alerts : List (ℕ × Float64))
    → r < 2 ^ 63
    → ema.negative ≡ false
    → (evaluate_all (repeat (suc (suc (suc n))) r) (watching count ema alerts)).alerts
      ≡ (evaluate_all (repeat 3 r) (watching count ema alerts)).alerts
alerts-evaluate_all n r count ema alerts small pos =
    ap (λ (d : Detector). d.alerts)
      (evaluate_all-watching (repeat (suc (suc (suc n))) r) count ema alerts)
    ∙ ap (λ l. alerts ++ l) (spikes-steady n r ema small pos)
    ∙ sym (ap (λ (d : Detector). d.alerts) (evaluate_all-watching (repeat 3 r) count ema alerts))
