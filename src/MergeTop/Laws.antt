-- ===== src/MergeTop/Laws.antt =====
-- What merge_top.py makes of the generator: the section is replaced, and a second run, which no
-- longer finds the comment of the old section, writes most of the file twice.
use nex_pulse.Base.{
  ◌≡◌, refl, sym, ap, ◌∙◌, true, List, [], ◌∷◌, ◌++◌, append_assoc, All-append, All-left, take_left,
  drop_left,
}
use nex_pulse.Base.Slices.{negsuc, slice_to, slice_to-last}
use nex_pulse.Text.{Text, codes, is_in}
use nex_pulse.Text.Lines.{
  IsLines, IsLines-split, IsClosed, read_lines, write_lines, write_lines-append, read_lines-closed,
  read_lines-IsClosed, read_lines-append, read_lines-write_lines, write_lines-read_lines,
}
use nex_pulse.Script.{written, run_on}
use nex_pulse.Script.Find.{Misses, none_passes, none_passes-Misses, find_line-none, find_line-hit}
use nex_pulse.MergeTop.Block.{new_block}
use nex_pulse.MergeTop.{is_start, is_end, merge_top}

-- The block, line by line, as a later run reads it.
abbrev pub fresh_lines : List Text
fresh_lines = read_lines new_block

-- The block holds neither of the two comments that the script looks for.
pub fresh-Misses : Misses is_start fresh_lines × Misses is_end fresh_lines
unfolding none_passes read_lines new_block is_in codes
fresh-Misses =
    (none_passes-Misses is_start fresh_lines refl, none_passes-Misses is_end fresh_lines refl)

probe : read_lines (new_block ++ b'x' ∷ []) ≡ fresh_lines ++ (b'x' ∷ []) ∷ []
unfolding read_lines new_block
probe = refl

-- All lines of the block end in a newline.
fresh-IsClosed : IsClosed fresh_lines
fresh-IsClosed = read_lines-IsClosed new_block probe

-- A text behind the block is read by itself.
read_lines-new_block : (s : Text) → read_lines (new_block ++ s) ≡ fresh_lines ++ read_lines s
read_lines-new_block s = read_lines-append new_block s fresh-IsClosed

module _ (head : List Text) (title : Text) (body : List Text) (next : Text) (rest : List Text) where
  -- If the first "# ROW 1: KPIs" line stands before the first "# ROW 2: HTTP Ingress" line, then the
  -- lines from the one up to the other are replaced by the block, and all other lines stay.
  pub merge_top-replaces :
      Misses is_start head
      → is_start title ≡ true
      → Misses is_end (head ++ title ∷ body)
      → is_end next ≡ true
      → merge_top ((head ++ title ∷ body) ++ next ∷ rest)
        ≡ written (head ++ new_block ∷ next ∷ rest)
  unfolding merge_top
  merge_top-replaces m h n k = rw (find_line-hit is_end (head ++ title ∷ body) next rest n k) (
      rw (append_assoc head (title ∷ body) (next ∷ rest)) (
        rw (find_line-hit is_start head title (body ++ next ∷ rest) m h) (
          rw (take_left head (title ∷ (body ++ next ∷ rest))) (
            rw (← append_assoc head (title ∷ body) (next ∷ rest))
              (rw (drop_left (head ++ title ∷ body) (next ∷ rest)))))))

  -- The text after a run over the file with these lines.
  run_on-merge_top :
      Misses is_start head
      → is_start title ≡ true
      → Misses is_end (head ++ title ∷ body)
      → is_end next ≡ true
      → IsLines ((head ++ title ∷ body) ++ next ∷ rest)
      → run_on merge_top (write_lines ((head ++ title ∷ body) ++ next ∷ rest))
        ≡ write_lines (head ++ new_block ∷ next ∷ rest)
  unfolding run_on
  run_on-merge_top m h n k w = rw (read_lines-write_lines _ w) (rw (merge_top-replaces m h n k))

  -- A later run reads the text so.
  merged-read_lines :
      IsLines ((head ++ title ∷ body) ++ next ∷ rest)
      → read_lines (write_lines (head ++ new_block ∷ next ∷ rest))
        ≡ (head ++ fresh_lines) ++ next ∷ rest
  unfolding write_lines
  merged-read_lines w =
      let (c, r) = IsLines-split (head ++ title ∷ body) next rest w in
      ap read_lines (write_lines-append head (new_block ∷ next ∷ rest))
      ∙ read_lines-closed head _ (All-left _ head (title ∷ body) c)
      ∙ ap (λ t. head ++ t)
          (read_lines-new_block (write_lines (next ∷ rest))
            ∙ ap (λ t. fresh_lines ++ t) (read_lines-write_lines (next ∷ rest) r))
      ∙ sym (append_assoc head fresh_lines (next ∷ rest))

-- Without the comment of the old section the start is -1, so all lines but the last are kept in
-- front of the block, and those from the second section on stand behind it as well.
pub merge_top-unmarked :
    (front : List Text) (next : Text) (rest : List Text) (last : Text)
    → Misses is_start (front ++ next ∷ (rest ++ last ∷ []))
    → Misses is_end front
    → is_end next ≡ true
    → merge_top (front ++ next ∷ (rest ++ last ∷ []))
      ≡ written ((front ++ next ∷ rest) ++ new_block ∷ next ∷ (rest ++ last ∷ []))
unfolding merge_top
merge_top-unmarked front next rest last o n k = rw (find_line-none is_start _ o) (
    rw (find_line-hit is_end front next (rest ++ last ∷ []) n k) (
      rw (drop_left front (next ∷ (rest ++ last ∷ []))) (
        ap (λ t. written (t ++ new_block ∷ next ∷ (rest ++ last ∷ [])))
          (ap (λ t. slice_to t (negsuc 0)) (sym (append_assoc front (next ∷ rest) (last ∷ [])))
            ∙ slice_to-last (front ++ next ∷ rest) last))))

-- The block is the text of its lines.
write_lines-fresh_lines :
    (head ls : List Text)
    → write_lines ((head ++ fresh_lines) ++ ls) ≡ write_lines (head ++ new_block ∷ ls)
unfolding write_lines
write_lines-fresh_lines head ls =
    ap write_lines (append_assoc head fresh_lines ls)
    ∙ write_lines-append head (fresh_lines ++ ls)
    ∙ ap (λ t. write_lines head ++ t)
        (write_lines-append fresh_lines ls
          ∙ ap (λ t. t ++ write_lines ls) (write_lines-read_lines new_block))
    ∙ sym (write_lines-append head (new_block ∷ ls))

module _ (head : List Text) (title : Text) (body : List Text) (next : Text) (rest : List Text)
    (last : Text) where
  -- A second run of the script over its own result keeps all of it but the last line, and appends
  -- the block and everything from the "# ROW 2: HTTP Ingress" line on once more, provided that the
  -- file has one "# ROW 1: KPIs" line only.
  pub merge_top-again :
      IsLines ((head ++ title ∷ body) ++ next ∷ (rest ++ last ∷ []))
      → Misses is_start head
      → is_start title ≡ true
      → Misses is_end (head ++ title ∷ body)
      → is_end next ≡ true
      → Misses is_start (next ∷ (rest ++ last ∷ []))
      → run_on merge_top
          (run_on merge_top (write_lines ((head ++ title ∷ body) ++ next ∷ (rest ++ last ∷ []))))
        ≡ write_lines (head ++ new_block ∷ next ∷ rest)
          ++ write_lines (new_block ∷ next ∷ (rest ++ last ∷ []))
  unfolding run_on
  merge_top-again w m h n k o =
      ap (run_on merge_top) (run_on-merge_top head title body next (rest ++ last ∷ []) m h n k w)
      ∙ again
    where
      unmarked : Misses is_start ((head ++ fresh_lines) ++ next ∷ (rest ++ last ∷ []))
      unmarked = All-append _ (head ++ fresh_lines) _ (All-append _ head _ m fresh-Misses.0) o

      no_end : Misses is_end (head ++ fresh_lines)
      no_end = All-append _ head _ (All-left _ head (title ∷ body) n) fresh-Misses.1

      again :
          run_on merge_top (write_lines (head ++ new_block ∷ next ∷ (rest ++ last ∷ [])))
          ≡ write_lines (head ++ new_block ∷ next ∷ rest)
            ++ write_lines (new_block ∷ next ∷ (rest ++ last ∷ []))
      again = rw (merged-read_lines head title body next (rest ++ last ∷ []) w) (
          rw (merge_top-unmarked (head ++ fresh_lines) next rest last unmarked no_end k) (
            rw
              (write_lines-append ((head ++ fresh_lines) ++ next ∷ rest)
                (new_block ∷ next ∷ (rest ++ last ∷ [])))
              (rw (write_lines-fresh_lines head (next ∷ rest)))))
