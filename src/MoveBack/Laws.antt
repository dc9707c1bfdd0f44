-- ===== src/MoveBack/Laws.antt =====
-- Every run of move_back.py: what it writes, and when it exits without writing.
use mathlib.Core.Path.{subst, subst₂, ap₂}
use mathlib.Core.List.{Perm, perm_middle}
use mathlib.Core.List.Perm
use nex_pulse.Base.{
  ◌+◌, ◌≡◌, refl, sym, ap, ◌∙◌, true, List, [], ◌∷◌, ◌++◌, append_assoc, arith, ◌⊎◌, inl, inr,
  length, length-append, take_left, drop, drop_left,
}
use nex_pulse.Base.Blocks.{perm_blocks}
use nex_pulse.Base.Slices.{pos, slice-middle, delete_slice-middle}
use nex_pulse.Text.{Text}
use nex_pulse.Script.{Ending, written, exited, missing}
use nex_pulse.Script.Find.{
  Misses, FirstHit, find_cases, find_line-none, find_line-hit, find_from-none, find_from-hit,
}
use nex_pulse.MoveBack.{is_title, is_write, is_stop, row_comment, place, cut_from, move_back}

-- A run of the script from these lines: the three exits, and the move.
pub data Moves (lines : List Text) : Ending → Type 0 where
  no_section : Misses is_title lines → Moves lines (exited "Could not find section!")
  no_end :
      (before : List Text) (title : Text) (behind : List Text)
      → lines ≡ before ++ title ∷ behind
      → Misses is_title before
      → is_title title ≡ true
      → Misses is_stop behind
      → Moves lines (exited "Could not find end of section!")
  no_place :
      (before : List Text) (title : Text) (body : List Text) (behind : List Text)
      → lines ≡ before ++ title ∷ (body ++ behind)
      → Misses is_title before
      → is_title title ≡ true
      → Misses is_stop body
      → Misses is_write (before ++ behind)
      → Moves lines (exited "Could not find insertion point!")
  moved :
      (before : List Text) (title : Text) (body : List Text) (stop : Text) (behind : List Text)
      (front : List Text) (write : Text) (rest : List Text)
      → lines ≡ before ++ title ∷ (body ++ stop ∷ behind)
      → Misses is_title before
      → is_title title ≡ true
      → Misses is_stop body
      → is_stop stop ≡ true
      → before ++ stop ∷ behind ≡ front ++ write ∷ rest
      → Misses is_write front
      → is_write write ≡ true
      → Moves lines (written (front ++ (row_comment ∷ ((title ∷ body) ++ write ∷ rest))))

place-none :
    (block lines : List Text)
    → Misses is_write lines
    → place block lines ≡ exited "Could not find insertion point!"
unfolding place missing
place-none block lines h = rw (find_line-none is_write lines h)

pub place-hit :
    (block front : List Text) (write : Text) (rest : List Text)
    → Misses is_write front
    → is_write write ≡ true
    → place block (front ++ write ∷ rest)
      ≡ written (front ++ (row_comment ∷ (block ++ write ∷ rest)))
unfolding place missing
place-hit block front write rest m h =
    rw (find_line-hit is_write front write rest m h)
      (rw (take_left front (write ∷ rest)) (rw (drop_left front (write ∷ rest))))

module _ (before : List Text) (title : Text) where
  -- The list from the line behind the title on.
  drop_title : (behind : List Text) → drop (length before + 1) (before ++ title ∷ behind) ≡ behind
  drop_title behind =
      ap (λ n. drop n (before ++ title ∷ behind)) (omega (arith, length-append before (title ∷ [])))
      ∙ ap (drop (length (before ++ title ∷ []))) (sym (append_assoc before (title ∷ []) behind))
      ∙ drop_left (before ++ title ∷ []) behind

  cut_from-none :
      (behind : List Text)
      → Misses is_stop behind
      → cut_from (pos (length before)) (before ++ title ∷ behind)
        ≡ exited "Could not find end of section!"
  unfolding cut_from missing
  cut_from-none behind h = rw (drop_title behind) (rw (find_from-none is_stop _ behind h))

  cut_from-hit :
      (body : List Text) (stop : Text) (behind : List Text)
      → Misses is_stop body
      → is_stop stop ≡ true
      → cut_from (pos (length before)) (before ++ title ∷ (body ++ stop ∷ behind))
        ≡ place (title ∷ body) (before ++ stop ∷ behind)
  unfolding cut_from missing
  cut_from-hit body stop behind m h = rw (drop_title (body ++ stop ∷ behind)) (
      rw (find_from-hit is_stop _ body stop behind m h) (
        ap₂ place (slice-middle before (title ∷ body) (stop ∷ behind) _ last)
          (delete_slice-middle before (title ∷ body) (stop ∷ behind) _ last)))
    where
      last : length before + 1 + length body ≡ length before + length (title ∷ body)
      last = omega arith

-- A run that finds the title goes on from it.
move_back-title :
    (before : List Text) (title : Text) (behind : List Text)
    → Misses is_title before
    → is_title title ≡ true
    → move_back (before ++ title ∷ behind)
      ≡ cut_from (pos (length before)) (before ++ title ∷ behind)
unfolding move_back missing
move_back-title before title behind m h = rw (find_line-hit is_title before title behind m h)

move_back-none :
    (lines : List Text) → Misses is_title lines → move_back lines ≡ exited "Could not find section!"
unfolding move_back missing
move_back-none lines h = rw (find_line-none is_title lines h)

-- What follows the cut.
module _ (before : List Text) (title : Text) (body : List Text) (stop : Text) (behind : List Text)
    (m : Misses is_title before) (h : is_title title ≡ true) (n : Misses is_stop body)
    (k : is_stop stop ≡ true) where
  pub cut :
      move_back (before ++ title ∷ (body ++ stop ∷ behind))
      ≡ place (title ∷ body) (before ++ stop ∷ behind)
  cut =
      move_back-title before title (body ++ stop ∷ behind) m h
      ∙ cut_from-hit before title body stop behind n k

  cut-Moves :
      Misses is_write (before ++ stop ∷ behind) ⊎ FirstHit is_write (before ++ stop ∷ behind)
      → Moves
          (before ++ title ∷ (body ++ stop ∷ behind))
          (move_back (before ++ title ∷ (body ++ stop ∷ behind)))
  cut-Moves (inl o) =
      rw (cut ∙ place-none (title ∷ body) (before ++ stop ∷ behind) o)
        (no_place before title body (stop ∷ behind) refl m h n o)
  cut-Moves (inr f) =
      rw
        (cut
          ∙ ap (place (title ∷ body)) f.parts
          ∙ place-hit (title ∷ body) f.before f.hit f.behind f.before-Misses f.passes)
        (moved before title body stop behind f.before f.hit f.behind refl m h n k f.parts
          f.before-Misses f.passes)

title-Moves :
    (before : List Text) (title : Text) (behind : List Text)
    → Misses is_title before
    → is_title title ≡ true
    → Misses is_stop behind ⊎ FirstHit is_stop behind
    → Moves (before ++ title ∷ behind) (move_back (before ++ title ∷ behind))
title-Moves before title behind m h (inl o) =
    rw (move_back-title before title behind m h ∙ cut_from-none before title behind o)
      (no_end before title behind refl m h o)
title-Moves before title behind m h (inr f) =
    subst (λ t. Moves (before ++ title ∷ t) (move_back (before ++ title ∷ t))) (sym f.parts)
      (cut-Moves before title f.before f.hit f.behind m h f.before-Misses f.passes
        (find_cases is_write (before ++ f.hit ∷ f.behind)))

lines-Moves :
    (lines : List Text)
    → Misses is_title lines ⊎ FirstHit is_title lines
    → Moves lines (move_back lines)
lines-Moves lines (inl o) = rw (move_back-none lines o) (no_section o)
lines-Moves lines (inr f) =
    subst (λ t. Moves t (move_back t)) (sym f.parts)
      (title-Moves f.before f.hit f.behind f.before-Misses f.passes (find_cases is_stop f.behind))

-- Every run is one of the four: an exit because the title is missing, because no line behind it
-- ends the section, or because nothing is left to insert in front of; or the section, from the
-- first title up to the next end, is moved in front of the first `with open(` of the other lines.
pub move_back-Moves : (lines : List Text) → Moves lines (move_back lines)
move_back-Moves lines = lines-Moves lines (find_cases is_title lines)

-- The lines that a run writes, if it writes.
abbrev pub Writes : Ending → (List Text → Type 0) → Type 0
Writes (written out) P = P out
Writes _ P = Unit

Moves-perm :
    (lines : List Text) (e : Ending)
    → Moves lines e
    → Writes e (λ out. Perm out (row_comment ∷ lines))
Moves-perm lines _ (no_section _) = tt
Moves-perm lines _ (no_end _ _ _ _ _ _ _) = tt
Moves-perm lines _ (no_place _ _ _ _ _ _ _ _ _) = tt
Moves-perm lines _ (moved before title body stop behind front write rest e _ _ _ _ e' _ _) =
    Perm.trans (perm_middle front ((title ∷ body) ++ write ∷ rest)) (
      Perm.cons row_comment (
        Perm.trans (perm_blocks front (title ∷ body) (write ∷ rest)) (
          subst₂ (λ s t. Perm ((title ∷ body) ++ s) t) e' (sym e)
            (perm_blocks (title ∷ body) before (stop ∷ behind)))))

-- No line is lost or doubled: what a run writes is a rearrangement of the lines that it read and
-- of the comment that it adds.
pub move_back-perm :
    (lines out : List Text) → move_back lines ≡ written out → Perm out (row_comment ∷ lines)
move_back-perm lines out h =
    subst (λ e. Writes e (λ t. Perm t (row_comment ∷ lines))) h
      (Moves-perm lines _ (move_back-Moves lines))
