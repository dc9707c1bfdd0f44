-- ===== src/Reorder.antt =====
-- infra/grafana/dashboards/restructure.py and then move_back.py, each on the file that the one before
-- it has written: the lines of the generator before them and after them.
pub mod Edits
pub mod Reading
pub mod Back
pub mod Again
use nex_pulse.Base.{
  ◌≡◌, refl, sym, ap, ◌∙◌, Bool, true, false, List, [], ◌∷◌, ◌++◌, append_assoc, All, All-append,
  All-left, All-right, every, not, ◌==◌, if◌then◌else◌, arith,
}
use nex_pulse.Text.{Text, codes, is_in, starts_with, strip, replace, is_space}
use nex_pulse.Text.Lines.{
  IsLines, IsLines-split, IsLines-append, NoNewline-of-every, IsClosed, read_lines, write_lines,
  read_lines-closed, read_lines-write_lines, read_lines-IsClosed, read_lines-append,
  write_lines-append,
}
use nex_pulse.Script.{written, run_on, text_after}
use nex_pulse.Script.Find.{Misses, none_passes, none_passes-Misses}
use nex_pulse.Restructure.{
  is_row7, is_dump, is_row3, is_header, is_full_width, is_step, modify, restructure,
}
use nex_pulse.Restructure.Code.{api_code}
use nex_pulse.Restructure.Laws.{restructure-moves}
use nex_pulse.MoveBack.{is_title, is_write, is_stop, row_comment, place, move_back}
use nex_pulse.MoveBack.Laws.{cut, place-hit}

-- The line that adds the row of the section, and what restructure makes of it.
abbrev pub old_title : Text
old_title = codes "    add_row(\"Frontend Web Vitals & Page Analytics\")\n"

abbrev pub new_title : Text
new_title = codes "    add_row(\"Frontend Web Vitals & API Analytics\")\n"

-- The line that places the first panel of the section, and what restructure makes of it.
abbrev pub wide : Text
wide = codes "        \"gridPos\": {\"h\": 8, \"w\": 24, \"x\": 0, \"y\": y_pos},\n"

abbrev pub half : Text
half = codes "        \"gridPos\": {\"h\": 8, \"w\": 12, \"x\": 0, \"y\": y_pos},\n"

-- Lines that restructure leaves alone outside of the chart, and inside of it.
abbrev pub Kept : List Text → Type 0
Kept ls = Misses is_header ls × Misses is_full_width ls

-- The lines of a generator before the scripts: those in front of the comment on latency, that
-- comment, those up to the section of web vitals, its comment, those up to its title, those up to
-- the place of its first panel, those up to the step, the step, those up to the line that opens the
-- output, that line, and the rest.
pub record Generator : Type 0 where
  pub before : List Text
  pub row3 : Text
  pub mid : List Text
  pub row7 : Text
  pub gap : List Text
  pub heading : List Text
  pub chart : List Text
  pub step : Text
  pub tail : List Text
  pub dump : Text
  pub behind : List Text

-- The lines of the section from its title on, behind its comment.
abbrev pub old_body : Generator → List Text
old_body g = g.gap ++ old_title ∷ (g.heading ++ wide ∷ (g.chart ++ g.step ∷ g.tail))

abbrev pub source : Generator → List Text
source g = (g.before ++ g.row3 ∷ g.mid) ++ ((g.row7 ∷ old_body g) ++ g.dump ∷ g.behind)

-- The lines behind the title that restructure writes, as they are read again.
abbrev pub new_body : Generator → List Text
new_body g = g.heading ++ half ∷ (g.chart ++ (read_lines api_code ++ g.tail))

abbrev pub leading : Generator → List Text
leading g = g.before ++ g.row7 ∷ g.gap

-- The lines after both scripts.
abbrev pub reordered : Generator → List Text
reordered g =
    (leading g ++ g.row3 ∷ g.mid) ++ (row_comment ∷ ((new_title ∷ new_body g) ++ g.dump ∷ g.behind))

-- The lines of a file, in which the lines that the scripts look for stand where they belong.
pub record IsGenerator (g : Generator) : Type 0 where
  pub lines : IsLines (source g)
  pub row7s : Misses is_row7 (g.before ++ g.row3 ∷ g.mid)
  pub row7 : is_row7 g.row7 ≡ true
  pub dumps : Misses is_dump (g.row7 ∷ old_body g)
  pub dump : is_dump g.dump ≡ true
  pub row3s : Misses is_row3 g.before
  pub row3 : is_row3 g.row3 ≡ true
  pub front_kept : Kept (g.row7 ∷ g.gap)
  pub heading_kept : Kept g.heading
  pub chart_headers : Misses is_header g.chart
  pub chart_steps : Misses is_step g.chart
  pub step_header : is_header g.step ≡ false
  pub step : is_step g.step ≡ true
  pub tail_kept : Kept g.tail
  pub titles : Misses is_title (leading g)
  pub heading_stops : Misses is_stop g.heading
  pub chart_stops : Misses is_stop g.chart
  pub tail_stops : Misses is_stop g.tail
  pub row3_stop : is_stop g.row3 ≡ true
  pub writes : Misses is_write (leading g ++ g.row3 ∷ g.mid)
  pub write : is_write g.dump ≡ true

abbrev pub rewritten : Generator → List Text
rewritten g = (g.row7 ∷ g.gap) ++ new_title ∷ (g.heading ++ half ∷ (g.chart ++ api_code ∷ g.tail))
