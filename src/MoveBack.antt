-- ===== src/MoveBack.antt =====
-- infra/grafana/dashboards/move_back.py: the section of web vitals is cut out of the generator and
-- inserted in front of the `with open(` that ends it, under a comment of its own.
pub mod Laws
use nex_pulse.Base.{ℕ, String, Bool, not, ◌||◌, List, [], ◌∷◌, ◌++◌, drop, if◌then◌else◌}
use nex_pulse.Base.Slices.{ℤ, succ, bound, slice_to, slice_from, slice, delete_slice}
use nex_pulse.Text.{Text, codes, is_in, starts_with, strip}
use nex_pulse.Script.{Ending, written, exited, find_from, find_line, missing}

abbrev pub is_title : Text → Bool
is_title line = is_in (codes "add_row(\"Frontend Web Vitals & API Analytics\")") line

abbrev pub is_write : Text → Bool
is_write line = is_in (codes "with open(") line

abbrev pub is_stop : Text → Bool
is_stop line = starts_with (strip line) (codes "# ROW ") || is_in (codes "with open(") line

-- `"\n    # ROW 7: Web Vitals & Page Performance\n"`
unfoldable pub row_comment : Text
unfolding codes
row_comment = codes "\n    # ROW 7: Web Vitals & Page Performance\n"

-- From the search for the insertion point on, where `lines` lack the block.
unfoldable pub place : List Text → List Text → Ending
unfolding find_line missing
place web_vitals_block lines =
    let insert_idx = find_line is_write lines in
    if not (missing insert_idx)
    then written (
        slice_to lines insert_idx
        ++ (row_comment ∷ (web_vitals_block ++ slice_from lines insert_idx)))
    else exited "Could not find insertion point!"

-- The loop over `range(start_idx + 1, len(lines))`, and what follows it.
unfoldable pub cut_from : ℤ → List Text → Ending
unfolding find_from missing
cut_from start_idx lines =
    let first = bound lines (succ start_idx) in
    let end_idx = find_from is_stop first (drop first lines) in
    if missing end_idx
    then exited "Could not find end of section!"
    else place (slice lines start_idx end_idx) (delete_slice lines start_idx end_idx)

unfoldable pub move_back : List Text → Ending
unfolding find_line missing
move_back lines =
    let start_idx = find_line is_title lines in
    if missing start_idx then exited "Could not find section!" else cut_from start_idx lines
