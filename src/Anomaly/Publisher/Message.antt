-- ===== src/Anomaly/Publisher/Message.antt =====
-- The message of an alert reads back as its rate and its average.
use Prim.Native.Nat.{◌^◌}
use native.Mathlib.Nat.{one-le-pow}
use nex_pulse.Base.{
  ℕ, ◌+◌, ◌-◌, ◌*◌, ◌/◌, ◌%◌, ◌≡◌, ◌≤◌, refl, ap, ◌∙◌, false, Option, none, some, [], ◌∷◌, ◌++◌,
  append_assoc, arith,
}
use nex_pulse.Text.{Text, codes}
use nex_pulse.Text.Decimal.{decimal}
use nex_pulse.Text.Scan.{expect, expect-append, scan_number, scan_number-decimal, is_digit}
use nex_pulse.Anomaly.Float64.{Float64}
use nex_pulse.Anomaly.Rounding.{quotient-IsNear}
use nex_pulse.Anomaly.Publisher.{hundredths_of, fixed_two, payload}

infixl 5 ◌>>=◌
abbrev ◌>>=◌ {ℓ κ} : {A : Type ℓ} {B : Type κ} → Option A → (A → Option B) → Option B
some a >>= f = f a
none >>= f = none

-- The two digits of the decimal places.
two_places : ℕ → Text → Option ℕ
two_places n (c ∷ d ∷ s) =
    expect (codes "}") s >>= λ rest. some (n * 100 + (c - 48) * 10 + (d - 48))
two_places n _ = none

-- The hundredths of the average, from its number on.
read_average : ℕ × Text → Option ℕ
unfolding two_places
read_average (n, t) = expect (codes ".") t >>= two_places n

read_rate : ℕ × Text → Option (ℕ × ℕ)
unfolding read_average
read_rate (n, t) =
    expect (codes ", \"ema\": ") t >>= λ u. (read_average (scan_number 0 u) >>= λ k. some (n, k))

read_message : ℕ × Text → Option (ℕ × ℕ × ℕ)
unfolding read_rate
read_message (n, t) = expect (codes " req/sec\", \"rps\": ") t >>= λ u.
    (read_rate (scan_number 0 u) >>= λ r. some (n, r.0, r.1))

-- The rate in the text of the message, the rate, and the hundredths of the average.
unfoldable pub read_alert : Text → Option (ℕ × ℕ × ℕ)
unfolding read_message
read_alert s = expect (codes "{\"type\": \"anomaly\", \"message\": \"Traffic spiked to ") s >>= λ t.
    read_message (scan_number 0 t)

after_number :
    (n c : ℕ) (p s : Text)
    → is_digit c ≡ false
    → scan_number 0 (decimal n ++ ((c ∷ p) ++ s)) ≡ (n, (c ∷ p) ++ s)
after_number n c p s stop = scan_number-decimal n c (p ++ s) stop

fixed_two-positive :
    (x : Float64)
    → x.negative ≡ false
    → fixed_two x ++ codes "}"
      ≡ decimal (hundredths_of x / 100)
        ++ b'.' ∷ (48 + hundredths_of x % 100 / 10) ∷ (48 + hundredths_of x % 10) ∷ codes "}"
unfolding fixed_two
fixed_two-positive x pos =
    let k = hundredths_of x in
    rw pos (
      append_assoc (decimal (k / 100)) (b'.' ∷ (48 + k % 100 / 10) ∷ (48 + k % 10) ∷ [])
        (codes "}"))

two_places-digits :
    (k : ℕ) → two_places (k / 100) ((48 + k % 100 / 10) ∷ (48 + k % 10) ∷ codes "}") ≡ some k
unfolding two_places expect codes
two_places-digits k =
    let sum : k / 100 * 100 + (48 + k % 100 / 10 - 48) * 10 + (48 + k % 10 - 48) ≡ k =
      omega arith in
    ap some sum

read_average-fixed_two :
    (x : Float64)
    → x.negative ≡ false
    → read_average (scan_number 0 (fixed_two x ++ codes "}")) ≡ some (hundredths_of x)
unfolding read_average expect codes
read_average-fixed_two x pos =
    let k = hundredths_of x in
    ap (λ t. read_average (scan_number 0 t)) (fixed_two-positive x pos)
    ∙ ap read_average
        (scan_number-decimal (k / 100) b'.' ((48 + k % 100 / 10) ∷ (48 + k % 10) ∷ codes "}") refl)
    ∙ two_places-digits k

read_rate-average :
    (rps : ℕ) (x : Float64)
    → x.negative ≡ false
    → read_rate (scan_number 0 (decimal rps ++ (codes ", \"ema\": " ++ (fixed_two x ++ codes "}"))))
      ≡ some (rps, hundredths_of x)
unfolding read_rate codes
read_rate-average rps x pos =
    let rest = fixed_two x ++ codes "}" in
    ap read_rate (after_number rps b',' (codes " \"ema\": ") rest refl)
    ∙ ap (λ o. o >>= λ u. (read_average (scan_number 0 u) >>= λ k. some (rps, k)))
        (expect-append (codes ", \"ema\": ") rest)
    ∙ ap (λ o. o >>= λ k. some (rps, k)) (read_average-fixed_two x pos)

read_message-rate :
    (rps : ℕ) (x : Float64)
    → x.negative ≡ false
    → read_message (
        scan_number 0 (
          decimal rps
          ++ (codes " req/sec\", \"rps\": "
              ++ (decimal rps ++ (codes ", \"ema\": " ++ (fixed_two x ++ codes "}"))))))
      ≡ some (rps, rps, hundredths_of x)
unfolding read_message codes
read_message-rate rps x pos =
    let rest = decimal rps ++ (codes ", \"ema\": " ++ (fixed_two x ++ codes "}")) in
    ap read_message (after_number rps b' ' (codes "req/sec\", \"rps\": ") rest refl)
    ∙ ap (λ o. o >>= λ u. (read_rate (scan_number 0 u) >>= λ r. some (rps, r.0, r.1)))
        (expect-append (codes " req/sec\", \"rps\": ") rest)
    ∙ ap (λ o. o >>= λ r. some (rps, r.0, r.1)) (read_rate-average rps x pos)

-- The hundredths are the nearest to the average.
hundredths_of-near :
    (x : Float64)
    → (2 * (hundredths_of x * 2 ^ x.scale) ≤ 2 * (100 * x.magnitude) + 2 ^ x.scale)
      × (2 * (100 * x.magnitude) ≤ 2 * (hundredths_of x * 2 ^ x.scale) + 2 ^ x.scale)
unfolding hundredths_of
hundredths_of-near x =
    quotient-IsNear (100 * x.magnitude) (2 ^ x.scale) (one-le-pow x.scale 2 (omega arith))

-- The payload of an alert with an average that is not negative reads back as the rate, in the text of
-- the message and as a number, and as a number of hundredths that is off from the average by at most
-- half of one.
pub read_alert-payload :
    (rps : ℕ) (x : Float64)
    → x.negative ≡ false
    → (read_alert (payload rps x) ≡ some (rps, rps, hundredths_of x))
      × (2 * (hundredths_of x * 2 ^ x.scale) ≤ 2 * (100 * x.magnitude) + 2 ^ x.scale)
      × (2 * (100 * x.magnitude) ≤ 2 * (hundredths_of x * 2 ^ x.scale) + 2 ^ x.scale)
unfolding read_alert payload
read_alert-payload rps x pos = (
  ap (λ o. o >>= λ t. read_message (scan_number 0 t))
        (expect-append (codes "{\"type\": \"anomaly\", \"message\": \"Traffic spiked to ") (
          decimal rps
          ++ (codes " req/sec\", \"rps\": "
              ++ (decimal rps ++ (codes ", \"ema\": " ++ (fixed_two x ++ codes "}"))))))
      ∙ read_message-rate rps x pos,
  (hundredths_of-near x).0,
  (hundredths_of-near x).1,
)
