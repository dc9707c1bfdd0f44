-- ===== src/Script/Find.antt =====
-- What the search loop finds: the first line that passes, or -1 where none does.
use nex_pulse.Base.{
  ℕ, suc, ◌+◌, ◌≡◌, refl, ap, ◌∙◌, Bool, true, false, List, [], ◌∷◌, ◌++◌, Bool-cases, inl, inr,
  ◌⊎◌, arith, All, and-eq-true, not, ◌&&◌, length,
}
use nex_pulse.Base.Slices.{pos, negsuc}
use nex_pulse.Text.{Text}
use nex_pulse.Script.{find_from, find_line}

-- No line passes the test.
abbrev pub Misses : (Text → Bool) → List Text → Type 0
Misses p = All (λ l. p l ≡ false)

-- The lines are those before the first that passes, that line, and those behind it.
pub record FirstHit (p : Text → Bool) (lines : List Text) : Type 0 where
  pub before : List Text
  pub hit : Text
  pub behind : List Text
  pub parts : lines ≡ before ++ hit ∷ behind
  pub before-Misses : Misses p before
  pub passes : p hit ≡ true

pub find_from-none :
    (p : Text → Bool) (i : ℕ) (ls : List Text) → Misses p ls → find_from p i ls ≡ negsuc 0
unfolding find_from
find_from-none p i [] _ = refl
find_from-none p i (l ∷ ls) (h, hs) = rw h (find_from-none p (suc i) ls hs)

pub find_from-hit :
    (p : Text → Bool) (i : ℕ) (before : List Text) (l : Text) (behind : List Text)
    → Misses p before
    → p l ≡ true
    → find_from p i (before ++ l ∷ behind) ≡ pos (i + length before)
unfolding find_from
find_from-hit p i [] l behind _ h = rw h (ap pos (omega arith))
find_from-hit p i (b ∷ before) l behind (hb, hs) h =
    rw hb (find_from-hit p (suc i) before l behind hs h ∙ ap pos (omega arith))

pub find_line-none : (p : Text → Bool) (ls : List Text) → Misses p ls → find_line p ls ≡ negsuc 0
unfolding find_line
find_line-none p ls h = find_from-none p 0 ls h

pub find_line-hit :
    (p : Text → Bool) (before : List Text) (l : Text) (behind : List Text)
    → Misses p before
    → p l ≡ true
    → find_line p (before ++ l ∷ behind) ≡ pos (length before)
unfolding find_line
find_line-hit p before l behind hs h = find_from-hit p 0 before l behind hs h ∙ ap pos (omega arith)

pub find_cases : (p : Text → Bool) (ls : List Text) → Misses p ls ⊎ FirstHit p ls
find_cases p [] = inl tt
find_cases p (l ∷ ls) = elim (Bool-cases (p l)) [
  | inl e ↦
      inr
        (record { before = []; hit = l; behind = ls; parts = refl; before-Misses = tt; passes = e })
  | inr e ↦ elim (find_cases p ls) [
    | inl none ↦ inl (e, none)
    | inr f ↦ inr (record {
      before = l ∷ f.before;
      hit = f.hit;
      behind = f.behind;
      parts = ap (λ t. l ∷ t) f.parts;
      before-Misses = (e, f.before-Misses);
      passes = f.passes;
    })
  ]
]

-- `Misses` as a test, for lines that are known.
unfoldable pub none_passes : (Text → Bool) → List Text → Bool
none_passes p [] = true
none_passes p (l ∷ ls) = not (p l) && none_passes p ls

pub none_passes-Misses : (p : Text → Bool) (ls : List Text) → none_passes p ls ≡ true → Misses p ls
unfolding none_passes
none_passes-Misses p [] _ = tt
none_passes-Misses p (l ∷ ls) h =
    let (a, b) = and-eq-true (not (p l)) (none_passes p ls) h in
    (ground arith, none_passes-Misses p ls b)
