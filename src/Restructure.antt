-- ===== src/Restructure.antt =====
-- infra/grafana/dashboards/restructure.py: the section of web vitals is cut out of the generator,
-- rewritten line by line, and inserted in front of the section on latency.
pub mod Code
pub mod Edits
pub mod Laws
use nex_pulse.Base.{
  ℕ, zero, suc, ◌-◌, ◌+◌, Bool, true, false, not, ◌&&◌, Option, none, some, List, [], ◌∷◌, ◌++◌,
  length, if◌then◌else◌,
}
use nex_pulse.Base.Slices.{ℤ, pos, negsuc, succ, item, slice_to, slice_from, delete_slice}
use nex_pulse.Text.{Text, codes, is_in, replace}
use nex_pulse.Script.{Ending, written, raised, find_line}
use Code.{api_code}

abbrev pub is_row7 : Text → Bool
is_row7 line = is_in (codes "# ROW 7: Web Vitals & Page Performance") line

abbrev pub is_dump : Text → Bool
is_dump line =
    is_in
      (codes "with open(r\"E:\\NexPulse\\infra\\grafana\\dashboards\\overview.json\", \"w\") as f:")
      line

abbrev pub is_row3 : Text → Bool
is_row3 line = is_in (codes "# ROW 3: Latency") line

-- One more line in front of the block that a run of the loop gives.
keep : Text → Option (List Text × ℤ) → Option (List Text × ℤ)
keep line none = none
keep line (some (block, stop)) = some (line ∷ block, stop)

-- The loop over `range(row7_start, len(lines))` with `rounds` indices left, from index `i` on: the
-- lines in front of the one that opens the output, and its index, which stays -1 if there is none.
-- `none` is the `IndexError` of `lines[i]`.
unfoldable pub collect : ℕ → ℤ → List Text → Option (List Text × ℤ)
unfolding keep
collect zero i lines = some ([], negsuc 0)
collect (suc rounds) i lines =
    let rest = collect rounds (succ i) lines in
    elim (item lines i) [
      | none ↦ none
      | some line ↦ if is_dump line then some ([], i) else keep line rest
    ]

-- How many indices `range(i, n)` has.
unfoldable pub rounds : ℤ → ℕ → ℕ
rounds (pos k) n = n - k
rounds (negsuc k) n = n + suc k

abbrev pub is_header : Text → Bool
is_header line = is_in (codes "add_row(\"Frontend Web Vitals & Page Analytics\")") line

abbrev pub is_full_width : Text → Bool
is_full_width line =
    is_in (codes "\"gridPos\": {\"h\": 8, \"w\": 24, \"x\": 0, \"y\": y_pos},") line

abbrev pub is_step : Text → Bool
is_step line = is_in (codes "y_pos += 8") line

-- The loop over the block, whose flag is `in_bar_chart`.
unfoldable pub modify : Bool → List Text → List Text
unfolding replace
modify in_bar_chart [] = []
modify in_bar_chart (line ∷ lines) =
    let header =
      replace line (codes "Page Analytics") (codes "API Analytics") ∷ modify in_bar_chart lines in
    let narrow = replace line (codes "\"w\": 24") (codes "\"w\": 12") ∷ modify true lines in
    let api = api_code ∷ modify false lines in
    let other = line ∷ modify in_bar_chart lines in
    if is_header line
    then header
    else if is_full_width line && not in_bar_chart
    then narrow
    else if is_step line && in_bar_chart
    then api
    else other

-- What follows the first loop, with the block and the index where it ends.
unfoldable pub reorganize : List Text → ℤ → Option (List Text × ℤ) → Ending
unfolding find_line
reorganize lines row7_start none = raised
reorganize lines row7_start (some (web_vitals_block, json_dump_start)) =
    let left = delete_slice lines row7_start json_dump_start in
    let modified_block = modify false web_vitals_block in
    let insert_idx = find_line is_row3 left in
    written (slice_to left insert_idx ++ (modified_block ++ slice_from left insert_idx))

unfoldable pub restructure : List Text → Ending
unfolding find_line rounds
restructure lines =
    let row7_start = find_line is_row7 lines in
    reorganize lines row7_start (collect (rounds row7_start (length lines)) row7_start lines)
