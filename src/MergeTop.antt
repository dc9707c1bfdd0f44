-- ===== src/MergeTop.antt =====
-- infra/grafana/dashboards/merge_top.py: the first section of the generator is replaced by a new
-- one, from the line of its comment up to that of the second section.
pub mod Block
pub mod Laws
use nex_pulse.Base.{Bool, List, [], ◌∷◌, ◌++◌}
use nex_pulse.Base.Slices.{slice_to, slice_from}
use nex_pulse.Text.{Text, codes, is_in}
use nex_pulse.Script.{Ending, written, find_line}
use Block.{new_block}

abbrev pub is_start : Text → Bool
is_start line = is_in (codes "# ROW 1: KPIs") line

abbrev pub is_end : Text → Bool
is_end line = is_in (codes "# ROW 2: HTTP Ingress") line

-- An index that was not found is -1, and the slices count it from the end.
unfoldable pub merge_top : List Text → Ending
unfolding find_line
merge_top lines =
    let start_idx = find_line is_start lines in
    let end_idx = find_line is_end lines in
    written (slice_to lines start_idx ++ (new_block ∷ slice_from lines end_idx))
