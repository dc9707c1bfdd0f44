-- ===== src/Text/Decimal.antt =====
-- `str(n)` of a natural number, and reading it back.
use nex_pulse.Base.{
  ℕ, zero, suc, ◌+◌, ◌-◌, ◌*◌, ◌/◌, ◌%◌, ◌≤◌, ◌<◌, ◌≡◌, ap, ◌∙◌, [], ◌∷◌, ◌==◌, Bool-cases, inl,
  inr, arith, All, if◌then◌else◌,
}
use nex_pulse.Text.Chars.{Text}

-- The digits of `n` in front of `acc`; each round takes the last digit off.
decimal_onto : ℕ → ℕ → Text → Text
decimal_onto zero n acc = acc
decimal_onto (suc rounds) n acc =
    let onto = (48 + n % 10) ∷ acc in
    let more = decimal_onto rounds (n / 10) onto in if n / 10 == 0 then onto else more

-- A number has fewer digits than `n + 1`.
unfoldable pub decimal : ℕ → Text
unfolding decimal_onto
decimal n = decimal_onto (suc n) n []

-- The value of a run of digits behind a number.
abbrev pub value_from : ℕ → Text → ℕ
value_from n [] = n
value_from n (c ∷ s) = value_from (n * 10 + (c - 48)) s

abbrev pub IsDigit : ℕ → Type 0
IsDigit c = (48 ≤ c) × (c ≤ 57)

decimal_onto-value :
    (rounds n : ℕ) (acc : Text)
    → n < rounds
    → value_from 0 (decimal_onto rounds n acc) ≡ value_from n acc
unfolding decimal_onto
decimal_onto-value zero n acc h = absurd (omega arith)
decimal_onto-value (suc rounds) n acc h = elim (Bool-cases (n / 10 == 0)) [
  | inl e ↦ rw e (ap (λ k. value_from k acc) (ground arith))
  | inr e ↦ rw e (
      decimal_onto-value rounds (n / 10) ((48 + n % 10) ∷ acc) (ground arith)
      ∙ ap (λ k. value_from k acc) (omega arith))
]

-- The digits that are printed read as the number.
pub value-decimal : (n : ℕ) → value_from 0 (decimal n) ≡ n
unfolding decimal
value-decimal n = decimal_onto-value (suc n) n [] (omega arith)

decimal_onto-digits :
    (rounds n : ℕ) (acc : Text) → All IsDigit acc → All IsDigit (decimal_onto rounds n acc)
unfolding decimal_onto
decimal_onto-digits zero n acc h = h
decimal_onto-digits (suc rounds) n acc h = elim (Bool-cases (n / 10 == 0)) [
  | inl e ↦ rw e ((omega arith, omega arith), h)
  | inr e ↦
      rw e
        (decimal_onto-digits rounds (n / 10) ((48 + n % 10) ∷ acc) ((omega arith, omega arith), h))
]

pub decimal-digits : (n : ℕ) → All IsDigit (decimal n)
unfolding decimal
decimal-digits n = decimal_onto-digits (suc n) n [] tt
