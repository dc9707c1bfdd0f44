-- ===== src/Reorder/Back.antt =====
-- The section of web vitals back at its place.
use nex_pulse.Base.{◌≡◌, refl, sym, ap, ◌∙◌, false, ◌∷◌, ◌++◌, append_assoc, All-append}
use nex_pulse.Text.{codes, is_in, starts_with, strip, is_space}
use nex_pulse.Text.Lines.{read_lines, write_lines}
use nex_pulse.Script.{written, run_on, text_after}
use nex_pulse.Script.Find.{Misses, none_passes, none_passes-Misses}
use nex_pulse.Restructure.{restructure}
use nex_pulse.Restructure.Code.{api_code}
use nex_pulse.MoveBack.{is_stop, place, move_back}
use nex_pulse.MoveBack.Laws.{cut, place-hit}
use nex_pulse.Reorder.{
  new_title, half, Generator, source, new_body, leading, reordered, IsGenerator,
}
use nex_pulse.Reorder.Reading.{run_on-restructure, reread, regroup}

api_code-Misses : Misses is_stop (read_lines api_code)
unfolding none_passes read_lines api_code is_in codes starts_with strip is_space
api_code-Misses = none_passes-Misses is_stop (read_lines api_code) refl

new_body-Misses : (g : Generator) → IsGenerator g → Misses is_stop (new_body g)
unfolding is_in codes starts_with strip is_space
new_body-Misses g ok =
    All-append (λ l. is_stop l ≡ false) g.heading
      (half ∷ (g.chart ++ (read_lines api_code ++ g.tail))) ok.heading_stops
      (
        refl,
        All-append (λ l. is_stop l ≡ false) g.chart (read_lines api_code ++ g.tail) ok.chart_stops
            (All-append (λ l. is_stop l ≡ false) (read_lines api_code) g.tail api_code-Misses
              ok.tail_stops),
      )

moved :
    (g : Generator)
    → IsGenerator g
    → move_back (leading g ++ new_title ∷ (new_body g ++ g.row3 ∷ (g.mid ++ g.dump ∷ g.behind)))
      ≡ written (reordered g)
unfolding is_in codes
moved g ok =
    cut (leading g) new_title (new_body g) g.row3 (g.mid ++ g.dump ∷ g.behind) ok.titles refl
      (new_body-Misses g ok) ok.row3_stop
    ∙ ap (place (new_title ∷ new_body g))
        (sym (append_assoc (leading g) (g.row3 ∷ g.mid) (g.dump ∷ g.behind)))
    ∙ place-hit (new_title ∷ new_body g) (leading g ++ g.row3 ∷ g.mid) g.dump g.behind ok.writes
        ok.write

-- Running restructure on such a file and then move_back puts the section back in front of the line
-- that opens the output, behind a new comment, renamed, with its first panel at half its width and the second
-- panel in place of the step behind it; and the old comment of the section, with the lines up to its
-- title, stays behind in front of the comment on latency. All other lines stay in their order.
pub move_back-restructure :
    (g : Generator)
    → IsGenerator g
    → run_on move_back (run_on restructure (write_lines (source g))) ≡ write_lines (reordered g)
move_back-restructure g ok =
    ap (run_on move_back) (run_on-restructure g ok)
    ∙ (unfold run_on text_after in rw (reread g ok ∙ regroup g, moved g ok) refl)
