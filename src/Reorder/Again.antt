-- ===== src/Reorder/Again.antt =====
-- A second run of restructure.py on what the two scripts leave.
use nex_pulse.Base.{
  ◌≡◌, refl, ap, ◌∙◌, false, List, [], ◌∷◌, ◌++◌, append_assoc, All-append, All-left, All-right,
}
use nex_pulse.Text.{Text, codes, is_in, starts_with}
use nex_pulse.Text.Lines.{
  IsLines, IsLines-append, IsClosed, read_lines, write_lines, read_lines-closed,
  read_lines-write_lines, read_lines-IsClosed, read_lines-append, write_lines-append,
}
use nex_pulse.Script.{run_on, text_after}
use nex_pulse.Script.Find.{Misses, none_passes, none_passes-Misses}
use nex_pulse.Restructure.{is_row7, is_dump, is_row3, modify, restructure}
use nex_pulse.Restructure.Code.{api_code}
use nex_pulse.MoveBack.{row_comment, move_back}
use nex_pulse.Reorder.{
  old_title, new_title, wide, half, Generator, source, new_body, leading, reordered, IsGenerator,
}
use mathlib.Core.Path.{subst}
use nex_pulse.Restructure.Laws.{restructure-after_dump}
use nex_pulse.Reorder.Back.{move_back-restructure}
use nex_pulse.Reorder.Reading.{
  IsWhole, Closed, IsGenerator-Closed, new_title-IsWhole, half-IsWhole, api_code-IsClosed,
}

-- The block that the second run takes out, behind the old comment.
abbrev pub second_body : Generator → List Text
second_body g = g.gap ++ g.row3 ∷ (g.mid ++ (read_lines row_comment ++ new_title ∷ new_body g))

row_comment-IsClosed : IsClosed (read_lines row_comment)
unfolding read_lines row_comment
row_comment-IsClosed = read_lines-IsClosed row_comment refl

moved_section-IsLines :
    (g : Generator) → Closed g → IsLines ((new_title ∷ new_body g) ++ g.dump ∷ g.behind)
moved_section-IsLines g c =
    IsLines-append (new_title ∷ new_body g) (g.dump ∷ g.behind)
      (
        new_title-IsWhole,
        All-append IsWhole g.heading (half ∷ (g.chart ++ (read_lines api_code ++ g.tail))) c.heading
            (
              half-IsWhole,
              All-append IsWhole g.chart (read_lines api_code ++ g.tail) c.chart
                  (All-append IsWhole (read_lines api_code) g.tail api_code-IsClosed c.tail),
            ),
      )
      c.rest

in_front : (g : Generator) → Closed g → IsClosed (leading g ++ g.row3 ∷ g.mid)
in_front g c =
    All-append IsWhole (leading g) (g.row3 ∷ g.mid)
      (All-append IsWhole g.before (g.row7 ∷ g.gap) c.before c.row7_gap) c.row3_mid

-- What the second run reads.
reread_again :
    (g : Generator)
    → IsGenerator g
    → read_lines (write_lines (reordered g))
      ≡ g.before ++ ((g.row7 ∷ second_body g) ++ g.dump ∷ g.behind)
unfolding write_lines
reread_again g ok =
    let c = IsGenerator-Closed g ok in
    let moved = (new_title ∷ new_body g) ++ g.dump ∷ g.behind in
    ap read_lines (write_lines-append (leading g ++ g.row3 ∷ g.mid) (row_comment ∷ moved))
    ∙ read_lines-closed (leading g ++ g.row3 ∷ g.mid) (row_comment ++ write_lines moved)
        (in_front g c)
    ∙ ap (λ t. (leading g ++ g.row3 ∷ g.mid) ++ t)
        (read_lines-append row_comment (write_lines moved) row_comment-IsClosed
          ∙ ap (λ t. read_lines row_comment ++ t)
              (read_lines-write_lines moved (moved_section-IsLines g c)))
    ∙ simp append_assoc refl

added-Misses : Misses is_dump (read_lines api_code) × Misses is_dump (read_lines row_comment)
unfolding none_passes read_lines api_code row_comment is_in codes starts_with
added-Misses = (
  none_passes-Misses is_dump (read_lines api_code) refl,
  none_passes-Misses is_dump (read_lines row_comment) refl,
)

IsKept : Text → Type 0
IsKept l = is_dump l ≡ false

second_body-Misses :
    (g : Generator)
    → IsGenerator g
    → Misses is_dump (g.row3 ∷ g.mid)
    → Misses is_dump (g.row7 ∷ second_body g)
unfolding IsKept is_in codes starts_with
second_body-Misses g ok between =
    let rest = g.chart ++ g.step ∷ g.tail in
    let inner =
      (All-right IsKept (g.row7 ∷ g.gap) (old_title ∷ (g.heading ++ wide ∷ rest)) ok.dumps).1 in
    let panel = (All-right IsKept g.heading (wide ∷ rest) inner).1 in
    let body =
      All-append IsKept g.heading (half ∷ (g.chart ++ (read_lines api_code ++ g.tail)))
        (All-left IsKept g.heading (wide ∷ rest) inner)
        (
          refl,
          All-append IsKept g.chart (read_lines api_code ++ g.tail)
              (All-left IsKept g.chart (g.step ∷ g.tail) panel)
              (All-append IsKept (read_lines api_code) g.tail added-Misses.0
                (All-right IsKept g.chart (g.step ∷ g.tail) panel).1),
        ) in
    All-append IsKept (g.row7 ∷ g.gap)
      (g.row3 ∷ (g.mid ++ (read_lines row_comment ++ new_title ∷ new_body g)))
      (All-left IsKept (g.row7 ∷ g.gap) (old_title ∷ (g.heading ++ wide ∷ rest)) ok.dumps)
      (All-append IsKept (g.row3 ∷ g.mid) (read_lines row_comment ++ new_title ∷ new_body g) between
        (All-append IsKept (read_lines row_comment) (new_title ∷ new_body g) added-Misses.1
          (refl, body)))

-- Where the line that opens the output is not the last one, and no comment on latency stands in the rest of the file: a
-- second run of restructure, after restructure and move_back, takes out all lines from the old
-- comment of the section on, which are those of the section on latency and of all behind it, and puts
-- them behind the line that opens the output, in front of the last line of the file.
pub restructure-again :
    (g : Generator) (rest : List Text) (last : Text)
    → IsGenerator g
    → g.behind ≡ rest ++ last ∷ []
    → Misses is_dump (g.row3 ∷ g.mid)
    → Misses is_row3 (g.dump ∷ g.behind)
    → run_on restructure (run_on move_back (run_on restructure (write_lines (source g))))
      ≡ write_lines
          ((g.before ++ g.dump ∷ rest) ++ (modify false (g.row7 ∷ second_body g) ++ last ∷ []))
restructure-again g rest last ok end between outside =
    let front = All-left (λ l. is_row7 l ≡ false) g.before (g.row3 ∷ g.mid) ok.row7s in
    let no_row3 =
      All-append (λ l. is_row3 l ≡ false) g.before (g.dump ∷ g.behind) ok.row3s outside in
    let second =
      restructure-after_dump g.before g.row7 (second_body g) g.dump rest last front ok.row7
        (second_body-Misses g ok between) ok.dump
        (subst (λ b. Misses is_row3 (g.before ++ g.dump ∷ b)) end no_row3) in
    ap (run_on restructure) (move_back-restructure g ok)
    ∙ (unfold run_on text_after in rw (reread_again g ok, end, second) refl)
