-- ===== src/Reorder/Reading.antt =====
-- The file between the two scripts, as move_back.py reads it.
use nex_pulse.Base.{
  ◌≡◌, refl, ap, ◌∙◌, true, false, List, [], ◌∷◌, ◌++◌, append_assoc, All, All-append, All-left,
  All-right, every, not, ◌==◌,
}
use nex_pulse.Text.{Text, codes}
use nex_pulse.Text.Lines.{
  IsLines, IsLines-split, IsLines-append, NoNewline-of-every, IsClosed, read_lines, write_lines,
  read_lines-closed, read_lines-write_lines, read_lines-IsClosed, read_lines-append,
  write_lines-append,
}
use nex_pulse.Script.{run_on, text_after}
use nex_pulse.Restructure.{restructure}
use nex_pulse.Restructure.Code.{api_code}
use nex_pulse.Restructure.Laws.{restructure-moves}
use nex_pulse.Reorder.{
  old_title, new_title, wide, half, Generator, old_body, source, new_body, leading, IsGenerator,
  rewritten,
}
use nex_pulse.Reorder.Edits.{modify-section}

-- What restructure writes.
abbrev pub restructured : Generator → List Text
restructured g = g.before ++ (rewritten g ++ g.row3 ∷ (g.mid ++ g.dump ∷ g.behind))

pub run_on-restructure :
    (g : Generator)
    → IsGenerator g
    → run_on restructure (write_lines (source g)) ≡ write_lines (restructured g)
unfolding run_on text_after
run_on-restructure g ok = rw (read_lines-write_lines (source g) ok.lines) (
    rw
      (restructure-moves g.before g.row3 g.mid g.row7 (old_body g) g.dump g.behind ok.row7s ok.row7
        ok.dumps ok.dump ok.row3s ok.row3)
      (ap (λ t. write_lines (g.before ++ (t ++ g.row3 ∷ (g.mid ++ g.dump ∷ g.behind))))
        (modify-section g ok)))

-- What stands in front of the new panel, and behind it.
abbrev pub to_panel : Generator → List Text
to_panel g = leading g ++ new_title ∷ (g.heading ++ half ∷ g.chart)

abbrev pub from_panel : Generator → List Text
from_panel g = g.tail ++ g.row3 ∷ (g.mid ++ g.dump ∷ g.behind)

restructured-panel : (g : Generator) → restructured g ≡ to_panel g ++ api_code ∷ from_panel g
restructured-panel g = simp append_assoc refl

source-dump :
    (g : Generator)
    → source g ≡ ((g.before ++ g.row3 ∷ g.mid) ++ (g.row7 ∷ old_body g)) ++ g.dump ∷ g.behind
source-dump g = simp append_assoc refl

-- The lines up to the output are closed, and those from it on are the lines of a file.
closed :
    (g : Generator)
    → IsGenerator g
    → IsClosed ((g.before ++ g.row3 ∷ g.mid) ++ (g.row7 ∷ old_body g)) × IsLines (g.dump ∷ g.behind)
closed g ok =
    IsLines-split ((g.before ++ g.row3 ∷ g.mid) ++ (g.row7 ∷ old_body g)) g.dump g.behind
      (rw (← source-dump g) ok.lines)

-- Closed lines, as a predicate on one line.
abbrev pub IsWhole : Text → Type 0
IsWhole l = (b : Text) × (l ≡ b ++ b'\n' ∷ []) × All (λ c. (c == b'\n') ≡ false) b

pub record Closed (g : Generator) : Type 0 where
  pub before : IsClosed g.before
  pub row3_mid : IsClosed (g.row3 ∷ g.mid)
  pub row7_gap : IsClosed (g.row7 ∷ g.gap)
  pub heading : IsClosed g.heading
  pub chart : IsClosed g.chart
  pub tail : IsClosed g.tail
  pub rest : IsLines (g.dump ∷ g.behind)

pub IsGenerator-Closed : (g : Generator) → IsGenerator g → Closed g
IsGenerator-Closed g ok =
    let (all, rest) = closed g ok in
    let first = All-left IsWhole (g.before ++ g.row3 ∷ g.mid) (g.row7 ∷ old_body g) all in
    let section = All-right IsWhole (g.before ++ g.row3 ∷ g.mid) (g.row7 ∷ old_body g) all in
    let inner =
      (All-right IsWhole (g.row7 ∷ g.gap)
        (old_title ∷ (g.heading ++ wide ∷ (g.chart ++ g.step ∷ g.tail))) section).1 in
    let panel = (All-right IsWhole g.heading (wide ∷ (g.chart ++ g.step ∷ g.tail)) inner).1 in
    record {
      before = All-left IsWhole g.before (g.row3 ∷ g.mid) first;
      row3_mid = All-right IsWhole g.before (g.row3 ∷ g.mid) first;
      row7_gap =
          All-left IsWhole (g.row7 ∷ g.gap)
            (old_title ∷ (g.heading ++ wide ∷ (g.chart ++ g.step ∷ g.tail))) section;
      heading = All-left IsWhole g.heading (wide ∷ (g.chart ++ g.step ∷ g.tail)) inner;
      chart = All-left IsWhole g.chart (g.step ∷ g.tail) panel;
      tail = (All-right IsWhole g.chart (g.step ∷ g.tail) panel).1;
      rest = rest;
    }

known_closed : (s : Text) → every (λ c. not (c == b'\n')) s ≡ true → IsWhole (s ++ b'\n' ∷ [])
known_closed s h = (s, refl, NoNewline-of-every s h)

pub new_title-IsWhole : IsWhole new_title
unfolding codes every
new_title-IsWhole = known_closed (codes "    add_row(\"Frontend Web Vitals & API Analytics\")") refl

pub half-IsWhole : IsWhole half
unfolding codes every
half-IsWhole =
    known_closed (codes "        \"gridPos\": {\"h\": 8, \"w\": 12, \"x\": 0, \"y\": y_pos},") refl

to_panel-IsClosed : (g : Generator) → Closed g → IsClosed (to_panel g)
to_panel-IsClosed g c =
    All-append IsWhole (leading g) (new_title ∷ (g.heading ++ half ∷ g.chart))
      (All-append IsWhole g.before (g.row7 ∷ g.gap) c.before c.row7_gap)
      (
        new_title-IsWhole,
        All-append IsWhole g.heading (half ∷ g.chart) c.heading (half-IsWhole, c.chart),
      )

from_panel-IsLines : (g : Generator) → Closed g → IsLines (from_panel g)
from_panel-IsLines g c =
    IsLines-append g.tail (g.row3 ∷ (g.mid ++ g.dump ∷ g.behind)) c.tail
      (IsLines-append (g.row3 ∷ g.mid) (g.dump ∷ g.behind) c.row3_mid c.rest)

pub api_code-IsClosed : IsClosed (read_lines api_code)
unfolding read_lines api_code
api_code-IsClosed = read_lines-IsClosed api_code refl

-- What move_back reads.
pub reread :
    (g : Generator)
    → IsGenerator g
    → read_lines (write_lines (restructured g))
      ≡ to_panel g ++ (read_lines api_code ++ from_panel g)
unfolding write_lines
reread g ok =
    let c = IsGenerator-Closed g ok in
    ap (λ ls. read_lines (write_lines ls)) (restructured-panel g)
    ∙ ap read_lines (write_lines-append (to_panel g) (api_code ∷ from_panel g))
    ∙ read_lines-closed (to_panel g) (api_code ++ write_lines (from_panel g))
        (to_panel-IsClosed g c)
    ∙ ap (λ t. to_panel g ++ t)
        (read_lines-append api_code (write_lines (from_panel g)) api_code-IsClosed
          ∙ ap (λ t. read_lines api_code ++ t)
              (read_lines-write_lines (from_panel g) (from_panel-IsLines g c)))

pub regroup :
    (g : Generator)
    → to_panel g ++ (read_lines api_code ++ from_panel g)
      ≡ leading g ++ new_title ∷ (new_body g ++ g.row3 ∷ (g.mid ++ g.dump ∷ g.behind))
regroup g = simp append_assoc refl
