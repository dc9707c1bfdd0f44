-- ===== src/Restructure/Laws.antt =====
-- Where restructure.py puts the block that it rewrites, for a generator in order and for one that
-- lacks a line which the script looks for.
use mathlib.Core.Path.{ap₂}
use nex_pulse.Base.{
  ℕ, zero, suc, ◌+◌, ◌-◌, ◌<◌, ◌≡◌, refl, sym, ap, ◌∙◌, true, false, some, List, [], ◌∷◌, ◌++◌,
  append_assoc, arith, length, length-append, get_elem?, take_left, drop, drop_left,
}
use nex_pulse.Base.Slices.{
  ℤ, pos, negsuc, slice_to, slice_from, slice_to-last, slice_from-last, delete_slice,
  delete_slice-middle,
}
use nex_pulse.Text.{Text}
use nex_pulse.Script.{Ending, written, find_line}
use nex_pulse.Script.Find.{Misses, find_line-none, find_line-hit}
use nex_pulse.Restructure.{
  is_row7, is_dump, is_row3, keep, collect, rounds, modify, reorganize, restructure,
}

module _ {A : Type 0} where
  get_elem?-drop :
      (k : ℕ) (xs : List A) (y : A) (ys : List A) → drop k xs ≡ y ∷ ys → get_elem? xs k ≡ some y
  get_elem?-drop zero xs y ys e = rw e
  get_elem?-drop (suc k) [] y ys e = cc
  get_elem?-drop (suc k) (x ∷ xs) y ys e = get_elem?-drop k xs y ys e

  drop-next :
      (k : ℕ) (xs : List A) (y : A) (ys : List A) → drop k xs ≡ y ∷ ys → drop (suc k) xs ≡ ys
  drop-next zero xs y ys e = rw e
  drop-next (suc k) [] y ys e = cc
  drop-next (suc k) (x ∷ xs) y ys e = drop-next k xs y ys e

  drop-add_one :
      (k : ℕ) (xs : List A) (y : A) (ys : List A) → drop k xs ≡ y ∷ ys → drop (k + 1) xs ≡ ys
  drop-add_one k xs y ys e = ap (λ n. drop n xs) {y = suc k} (omega arith) ∙ drop-next k xs y ys e

-- One round of the loop, on a line that does not end the block.
collect-step :
    (r k : ℕ) (lines : List Text) (b : Text) (rest : List Text)
    → drop k lines ≡ b ∷ rest
    → is_dump b ≡ false
    → collect (suc r) (pos k) lines ≡ keep b (collect r (pos (k + 1)) lines)
unfolding collect
collect-step r k lines b rest e h = rw (get_elem?-drop k lines b rest e, collect) (rw h)

-- The loop stops at the first line that opens the output.
collect-hit :
    (r k : ℕ) (lines block : List Text) (dump : Text) (behind : List Text)
    → length block < r
    → drop k lines ≡ block ++ dump ∷ behind
    → Misses is_dump block
    → is_dump dump ≡ true
    → collect r (pos k) lines ≡ some (block, pos (k + length block))
collect-hit zero k lines block dump behind lt _ _ _ = absurd (omega arith)
collect-hit (suc r) k lines [] dump behind lt e _ h =
    unfold collect in
    rw (get_elem?-drop k lines dump behind e, collect)
      (rw h (ap (λ n. some ([], pos n)) (omega arith)))
collect-hit (suc r) k lines (b ∷ block) dump behind lt e (hb, hs) h =
    collect-step r k lines b _ e hb
    ∙ ap (keep b) (
        collect-hit r (k + 1) lines block dump behind (omega arith) (drop-add_one k lines b _ e) hs
          h)
    ∙ (unfold keep in ap (λ n. some (b ∷ block, pos n)) (omega arith))

-- Without such a line it takes all lines up to the end.
collect-none :
    (r k : ℕ) (lines block : List Text)
    → r ≡ length block
    → drop k lines ≡ block
    → Misses is_dump block
    → collect r (pos k) lines ≡ some (block, negsuc 0)
collect-none zero k lines [] e _ _ = unfold collect in refl
collect-none zero k lines (b ∷ block) e _ _ = absurd (omega arith)
collect-none (suc r) k lines [] e _ _ = absurd (omega arith)
collect-none (suc r) k lines (b ∷ block) e d (hb, hs) =
    collect-step r k lines b block d hb
    ∙ ap (keep b)
        (collect-none r (k + 1) lines block (omega arith) (drop-add_one k lines b block d) hs)
    ∙ (unfold keep in refl)

-- The lines in front of the section, its own lines, and the line that opens the output.
module _ (front : List Text) (row7 : Text) (body : List Text) (dump : Text) (behind : List Text)
    (m : Misses is_row7 front) (h : is_row7 row7 ≡ true) (n : Misses is_dump (row7 ∷ body))
    (k : is_dump dump ≡ true) where
  abbrev source : List Text
  source = front ++ ((row7 ∷ body) ++ dump ∷ behind)

  collected :
      collect (length source - length front) (pos (length front)) source
      ≡ some (row7 ∷ body, pos (length front + length (row7 ∷ body)))
  collected =
      collect-hit _ (length front) source (row7 ∷ body) dump behind
        (omega (
          arith,
          length-append front ((row7 ∷ body) ++ dump ∷ behind),
          length-append body (dump ∷ behind),
        ))
        (drop_left front _) n k

  -- The run, up to the search for the place of the block.
  restructure-reorganize :
      restructure source
      ≡ reorganize source
          (pos (length front))
          (some (row7 ∷ body, pos (length front + length (row7 ∷ body))))
  unfolding restructure rounds
  restructure-reorganize =
      rw (find_line-hit is_row7 front row7 (body ++ dump ∷ behind) m h) (rw collected)

  without_block :
      delete_slice source (pos (length front)) (pos (length front + length (row7 ∷ body)))
      ≡ front ++ dump ∷ behind
  without_block = delete_slice-middle front (row7 ∷ body) (dump ∷ behind) _ refl

  -- What is written, where `i` is the index of the insertion point.
  abbrev placed : List Text → ℤ → Ending
  placed left i = written (slice_to left i ++ (modify false (row7 ∷ body) ++ slice_from left i))

  place_at :
      (i : ℤ)
      → find_line is_row3 (front ++ dump ∷ behind) ≡ i
      → restructure source ≡ placed (front ++ dump ∷ behind) i
  unfolding reorganize
  place_at i e =
      restructure-reorganize
      ∙ ap (λ left. placed left (find_line is_row3 left)) without_block
      ∙ ap (placed (front ++ dump ∷ behind)) e

module _ (before : List Text) (row3 : Text) (mid : List Text) (row7 : Text) (body : List Text)
    (dump : Text) (behind : List Text) where
  -- For a generator in which the section of web vitals stands behind that on latency and in front
  -- of the line that opens the output: exactly the lines from the comment of the section up to that
  -- line are taken out, and what the loop makes of them is put in front of the latency comment. All
  -- other lines stay as they are and in their order.
  pub restructure-moves :
      Misses is_row7 (before ++ row3 ∷ mid)
      → is_row7 row7 ≡ true
      → Misses is_dump (row7 ∷ body)
      → is_dump dump ≡ true
      → Misses is_row3 before
      → is_row3 row3 ≡ true
      → restructure ((before ++ row3 ∷ mid) ++ ((row7 ∷ body) ++ dump ∷ behind))
        ≡ written (before ++ (modify false (row7 ∷ body) ++ row3 ∷ (mid ++ dump ∷ behind)))
  restructure-moves m h n k o p =
      place_at (before ++ row3 ∷ mid) row7 body dump behind m h n k (pos (length before)) (
        ap (find_line is_row3) assoc ∙ find_line-hit is_row3 before row3 (mid ++ dump ∷ behind) o p)
      ∙ ap
          (λ l. placed (before ++ row3 ∷ mid) row7 body dump behind m h n k l (pos (length before)))
          assoc
      ∙ ap (λ t. written (t ++ (modify false (row7 ∷ body) ++ drop (length before) tail_lines)))
          (take_left before (row3 ∷ (mid ++ dump ∷ behind)))
      ∙ ap (λ t. written (before ++ (modify false (row7 ∷ body) ++ t)))
          (drop_left before (row3 ∷ (mid ++ dump ∷ behind)))
    where
      assoc : (before ++ row3 ∷ mid) ++ dump ∷ behind ≡ before ++ row3 ∷ (mid ++ dump ∷ behind)
      assoc = append_assoc before (row3 ∷ mid) (dump ∷ behind)

      tail_lines : List Text
      tail_lines = before ++ row3 ∷ (mid ++ dump ∷ behind)

module _ (front : List Text) (row7 : Text) (body : List Text) (dump : Text) (behind : List Text)
    (last : Text) where
  -- If the latency comment stands nowhere outside the section, as after an earlier run of the
  -- script, then the section is put in front of the last line of the file and so behind the line
  -- that opens the output.
  pub restructure-after_dump :
      Misses is_row7 front
      → is_row7 row7 ≡ true
      → Misses is_dump (row7 ∷ body)
      → is_dump dump ≡ true
      → Misses is_row3 (front ++ dump ∷ (behind ++ last ∷ []))
      → restructure (front ++ ((row7 ∷ body) ++ dump ∷ (behind ++ last ∷ [])))
        ≡ written ((front ++ dump ∷ behind) ++ (modify false (row7 ∷ body) ++ last ∷ []))
  restructure-after_dump m h n k o =
      place_at front row7 body dump (behind ++ last ∷ []) m h n k (negsuc 0)
        (find_line-none is_row3 _ o)
      ∙ ap (λ l. placed front row7 body dump (behind ++ last ∷ []) m h n k l (negsuc 0))
          (sym (append_assoc front (dump ∷ behind) (last ∷ [])))
      ∙ ap₂ (λ s t. written (s ++ (modify false (row7 ∷ body) ++ t)))
          (slice_to-last (front ++ dump ∷ behind) last)
          (slice_from-last (front ++ dump ∷ behind) last)
