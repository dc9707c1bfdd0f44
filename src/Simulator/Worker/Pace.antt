-- ===== src/Simulator/Worker/Pace.antt =====
-- How many events the workers send in a second.
use Prim.Native.Nat.{◌^◌}
use native.Mathlib.Nat.{mul-le-mul_right, div-add-mod, mod-lt, le-div_iff_mul-le}
use nex_pulse.Base.{
  ℕ, zero, suc, ◌+◌, ◌*◌, ◌/◌, ◌≡◌, ◌≤◌, ◌<◌, refl, ap, ◌∙◌, Option, none, some, leb, arith,
  Bool-cases, inl, inr,
}
use nex_pulse.Base.Slices.{pos, negsuc}
use nex_pulse.Simulator.{Start, panicked, started, split}
use nex_pulse.Simulator.Split.{quotient-pos, split-Splits}
use nex_pulse.Simulator.Worker.{new_ticker, interval}

-- How often a ticker ticks in a second.
abbrev pub ticks : Option ℕ → Option ℕ
ticks none = none
ticks (some n) = some (1000000000 / n)

abbrev pub together : ℕ → Option ℕ → Option ℕ
together n none = none
together n (some k) = some (n * k)

-- The ticks of all workers in a second, or none for a panic.
abbrev pub offered : Start → Option ℕ
offered panicked = none
offered (started (negsuc n) each) = some 0
offered (started (pos zero) each) = some 0
offered (started (pos (suc n)) each) = together (suc n) (ticks (interval each))

-- The events in a second, against the rate that was asked for.
pub record Paced (rate workers : ℕ) (offer : Option ℕ) : Type 0 where
  pub events : ℕ
  pub offers : offer ≡ some events
  pub below : events ≤ rate
  pub close : rate < events + workers

new_ticker-pos : (d : ℕ) → 0 < d → new_ticker (some (pos d)) ≡ some d
new_ticker-pos zero h = absurd (omega (arith, h))
new_ticker-pos (suc d) h = refl

interval-new_ticker : (r : ℕ) → 0 < r → interval (pos r) ≡ new_ticker (some (pos (1000000000 / r)))
unfolding interval
interval-new_ticker r some_rate = ap new_ticker (quotient-pos 1000000000 r (omega arith) some_rate)

-- The interval in whole nanoseconds still gives the rate, up to 31622 events in a second.
ticks-shares :
    (r : ℕ) → 0 < r → r ≤ 31622 → (0 < 1000000000 / r) × (1000000000 / (1000000000 / r) ≡ r)
ticks-shares r some_rate few =
    let d = 1000000000 / r in
    let whole = div-add-mod 1000000000 r in
    let rest = mod-lt 1000000000 some_rate in
    let square = mul-le-mul_right r few in
    let long : r ≤ d = (le-div_iff_mul-le some_rate).1 (omega (arith, square, few)) in
    let some_time : 0 < d = omega (arith, long, some_rate) in
    let least : r ≤ 1000000000 / d = (le-div_iff_mul-le some_time).1 (omega (arith, whole)) in
    elim (Bool-cases (leb (r + 1) (1000000000 / d))) [
      | inl more ↦
          (let too_many =
              (le-div_iff_mul-le {y = 1000000000} some_time).0
                (let m : r + 1 ≤ 1000000000 / d = ground arith in m) in
            absurd (omega (arith, too_many, whole, rest, long)))
      | inr most ↦ (some_time, ground (arith, least))
    ]

offered-started :
    (count r : ℕ) → 0 < r → r ≤ 31622 → offered (started (pos count) (pos r)) ≡ some (count * r)
offered-started zero r some_rate few = let nothing : 0 ≡ 0 * r = omega arith in ap some nothing
offered-started (suc n) r some_rate few =
    let share = ticks-shares r some_rate few in
    ap (λ o. together (suc n) (ticks o))
      (interval-new_ticker r some_rate ∙ new_ticker-pos (1000000000 / r) share.0)
    ∙ ap (λ k. some (suc n * k)) share.1

-- For a rate below 2^63 that gives each of at least one worker fewer than 31622 events: the workers
-- start without a panic, and with the intervals in whole nanoseconds all tickers together tick at most
-- as often in a second as the rate, and less than one time for each worker less.
pub offered-split :
    (rate workers : ℕ)
    → rate < 2 ^ 63
    → 0 < workers
    → rate < 31622 * workers
    → Paced rate workers (offered (split (pos rate) (pos workers)))
offered-split rate workers small some_workers few =
    let s = split-Splits rate workers small some_workers in
    let bound = s.share in
    let fast : s.each ≤ 31622 = elim (Bool-cases (leb 31623 s.each)) [
      | inl more ↦
          (let over = mul-le-mul_right workers (let m : 31623 ≤ s.each = ground arith in m) in
            absurd (omega (arith, over, bound, few)))
      | inr most ↦ ground arith
    ] in
    record {
      events = s.count * s.each;
      offers = ap offered s.starts ∙ offered-started s.count s.each (omega (arith, s.busy)) fast;
      below = s.below;
      close = s.close;
    }
