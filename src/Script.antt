-- ===== src/Script.antt =====
-- What the four scripts under infra/grafana/dashboards that rewrite generate_dashboard.py share:
-- how a run ends, what it leaves in the file, and the loop that looks for a line.
pub mod Find
use nex_pulse.Base.{ℕ, zero, suc, String, Bool, true, false, List, [], ◌∷◌, if◌then◌else◌}
use nex_pulse.Base.Slices.{ℤ, pos, negsuc}
use nex_pulse.Text.{Text}
use nex_pulse.Text.Lines.{read_lines, write_lines}

-- The end of a run: the lines that it writes and then prints a message, an exit with status 1
-- after a message, or an exception. Only the first opens the file for writing.
pub data Ending : Type 0 where
  written : List Text → Ending
  exited : String → Ending
  raised : Ending

-- The text of the file after a run that found the text `before` in it.
unfoldable pub text_after : Ending → Text → Text
text_after (written lines) before = write_lines lines
text_after (exited message) before = before
text_after raised before = before

-- A run over a file: it reads all lines, and the file is written at the end if at all.
unfoldable pub run_on : (List Text → Ending) → Text → Text
unfolding text_after
run_on script before = text_after (script (read_lines before)) before

-- The exit status of the process.
unfoldable pub status : Ending → ℕ
status (written lines) = 0
status (exited message) = 1
status raised = 1

-- `for i, line in enumerate(lines): if p(line): index = i; break`, over the lines from number `i`
-- on. The index stays -1 if no line passes.
unfoldable pub find_from : (Text → Bool) → ℕ → List Text → ℤ
find_from p i [] = negsuc 0
find_from p i (l ∷ ls) = let rest = find_from p (suc i) ls in if p l then pos i else rest

unfoldable pub find_line : (Text → Bool) → List Text → ℤ
unfolding find_from
find_line p lines = find_from p 0 lines

-- `index == -1`
unfoldable pub missing : ℤ → Bool
missing (pos n) = false
missing (negsuc zero) = true
missing (negsuc (suc n)) = false
