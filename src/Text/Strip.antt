-- ===== src/Text/Strip.antt =====
-- Laws of `lstrip`, `rstrip` and the indentation: a text between two runs of white space.
use mathlib.Core.Path.{subst}
use nex_pulse.Base.{
  ℕ, ◌≡◌, ◌≢◌, refl, sym, ap, ◌∙◌, true, false, [], ◌∷◌, ◌++◌, Bool-cases, inl, inr, arith, All,
  All-take, length, length-append, take, take_left,
}
use nex_pulse.Text.Lines.{NoNewline}
use nex_pulse.Text.Chars.{Text, is_space, lstrip, rstrip, indent_of}

-- A run of white space.
abbrev pub IsBlank : Text → Type 0
IsBlank = All (λ c. is_space c ≡ true)

pub lstrip-append :
    (w s : Text) (c : ℕ) → IsBlank w → is_space c ≡ false → lstrip (w ++ c ∷ s) ≡ c ∷ s
unfolding lstrip
lstrip-append [] s c _ h = rw h
lstrip-append (b ∷ w) s c (hb, hw) h = rw hb (lstrip-append w s c hw h)

pub indent_of-append :
    (w s : Text) (c : ℕ) → IsBlank w → is_space c ≡ false → indent_of (w ++ c ∷ s) ≡ w
unfolding indent_of
indent_of-append w s c hw h =
    rw (lstrip-append w s c hw h)
      (ap (λ n. take n (w ++ c ∷ s)) (omega (arith, length-append w (c ∷ s))) ∙ take_left w (c ∷ s))

rstrip-IsBlank : (w : Text) → IsBlank w → rstrip w ≡ []
unfolding rstrip
rstrip-IsBlank [] _ = refl
rstrip-IsBlank (b ∷ w) (hb, hw) = rw (rstrip-IsBlank w hw) (rw hb)

pub rstrip-append :
    (s w : Text) (c : ℕ) → IsBlank w → is_space c ≡ false → rstrip (s ++ c ∷ w) ≡ s ++ c ∷ []
unfolding rstrip
rstrip-append [] w c hw h = rw (rstrip-IsBlank w hw) (rw h)
rstrip-append (a ∷ []) w c hw h = rw (rstrip-append [] w c hw h)
rstrip-append (a ∷ b ∷ s) w c hw h = rw (rstrip-append (b ∷ s) w c hw h)

-- A text is its indentation and what `lstrip` leaves.
pub record Indented (s : Text) : Type 0 where
  pub blank : Text
  pub blank-IsBlank : IsBlank blank
  pub parts : s ≡ blank ++ lstrip s

pub lstrip-Indented : (s : Text) → Indented s
unfolding lstrip
lstrip-Indented [] = record { blank = []; blank-IsBlank = tt; parts = refl }
lstrip-Indented (c ∷ s) = elim (Bool-cases (is_space c)) [
  | inl e ↦ record {
    blank = c ∷ (lstrip-Indented s).blank;
    blank-IsBlank = (e, (lstrip-Indented s).blank-IsBlank);
    parts = rw e (ap (λ t. c ∷ t) (lstrip-Indented s).parts);
  }
  | inr e ↦ record { blank = []; blank-IsBlank = tt; parts = rw e refl }
]

indent_of-eq-blank : (s : Text) (b : Text) → s ≡ b ++ lstrip s → indent_of s ≡ b
unfolding indent_of
indent_of-eq-blank s b e =
    ap (λ n. take n s) (omega (arith, ap length e ∙ length-append b (lstrip s)))
    ∙ ap (take (length b)) e
    ∙ take_left b (lstrip s)

-- The indentation is white space.
pub indent_of-IsBlank : (s : Text) → IsBlank (indent_of s)
indent_of-IsBlank s =
    let i = lstrip-Indented s in
    subst IsBlank (sym (indent_of-eq-blank s i.blank i.parts)) i.blank-IsBlank

-- Where something other than white space follows, the end of the line is not in the indentation.
blanks_before :
    (l : Text)
    → NoNewline l
    → lstrip (l ++ b'\n' ∷ []) ≢ []
    → (b : Text) × (l ++ b'\n' ∷ [] ≡ b ++ lstrip (l ++ b'\n' ∷ [])) × NoNewline b
unfolding lstrip
blanks_before [] n h = absurd (h refl)
blanks_before (c ∷ l) (hc, n) h = elim (Bool-cases (is_space c)) [
  | inl e ↦
      let (b, parts, nb) = blanks_before l n (λ e'. h (rw e e')) in
      (c ∷ b, rw e (ap (λ t. c ∷ t) parts), (hc, nb))
  | inr e ↦ ([], rw e refl, tt)
]

pub indent_of-NoNewline :
    (l : Text)
    → NoNewline l
    → lstrip (l ++ b'\n' ∷ []) ≢ []
    → NoNewline (indent_of (l ++ b'\n' ∷ []))
indent_of-NoNewline l n h =
    let (b, parts, nb) = blanks_before l n h in
    subst NoNewline (sym (indent_of-eq-blank (l ++ b'\n' ∷ []) b parts)) nb

-- An indentation is a part of its line.
pub indent_of-All {ℓ} : (P : ℕ → Type ℓ) (s : Text) → All P s → All P (indent_of s)
unfolding indent_of
indent_of-All P s h = All-take P _ s h
