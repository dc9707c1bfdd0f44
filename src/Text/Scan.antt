-- ===== src/Text/Scan.antt =====
-- Reading a text from the left: a given prefix, and a decimal number.
use nex_pulse.Base.{
  ℕ, ◌+◌, ◌-◌, ◌*◌, ◌≡◌, refl, ap, ◌∙◌, Bool, true, false, ◌&&◌, Option, none, some, [], ◌∷◌, ◌++◌,
  ◌==◌, leb, if◌then◌else◌, arith, All,
}
use nex_pulse.Text.Chars.{Text}
use nex_pulse.Text.Decimal.{decimal, value_from, IsDigit, value-decimal, decimal-digits}

-- The rest behind a prefix.
unfoldable pub expect : Text → Text → Option Text
expect [] s = some s
expect (c ∷ p) [] = none
expect (c ∷ p) (d ∷ s) = let rest = expect p s in if c == d then rest else none

pub expect-append : (p s : Text) → expect p (p ++ s) ≡ some s
unfolding expect
expect-append [] s = refl
expect-append (c ∷ p) s = ground (arith, expect-append p s)

abbrev pub is_digit : ℕ → Bool
is_digit c = leb 48 c && leb c 57

-- The number that the digits at the start give behind `n`, and the rest.
unfoldable pub scan_number : ℕ → Text → ℕ × Text
scan_number n [] = (n, [])
scan_number n (c ∷ s) =
    let more = scan_number (n * 10 + (c - 48)) s in if is_digit c then more else (n, c ∷ s)

scan_number-digits :
    (n : ℕ) (ds : Text) (c : ℕ) (s : Text)
    → All IsDigit ds
    → is_digit c ≡ false
    → scan_number n (ds ++ c ∷ s) ≡ (value_from n ds, c ∷ s)
unfolding scan_number
scan_number-digits n [] c s digits stop = rw stop refl
scan_number-digits n (d ∷ ds) c s digits stop =
    let more = scan_number-digits (n * 10 + (d - 48)) ds c s digits.1 stop in
    let yes : is_digit d ≡ true = ground arith in rw yes more

-- A number that is printed is read back up to the first character that is no digit.
pub scan_number-decimal :
    (n c : ℕ) (s : Text) → is_digit c ≡ false → scan_number 0 (decimal n ++ c ∷ s) ≡ (n, c ∷ s)
scan_number-decimal n c s stop =
    scan_number-digits 0 (decimal n) c s (decimal-digits n) stop
    ∙ ap (λ k. (k, c ∷ s)) (value-decimal n)
