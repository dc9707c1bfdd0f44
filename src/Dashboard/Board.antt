-- ===== src/Dashboard/Board.antt =====
-- The state of `create_dashboard`: the list of panels and the height at which the next one goes.
use nex_pulse.Base.{ℕ, ◌+◌, false, Option, List, [], ◌∷◌, ◌++◌, length}
use nex_pulse.Text.{Text}
use nex_pulse.Json.{Json, bool, int, str, quoted, dict}

pub record Board : Type 0 where
  pub panels : List Json
  pub y_pos : ℕ

abbrev pub empty_board : Board
empty_board = record { panels = []; y_pos = 0 }

-- A target of `create_timeseries`; the key "color" may be absent.
pub record Target : Type 0 where
  pub expr : Text
  pub legend : Text
  pub color : Option Text

abbrev pub target : Text → Text → Option Text → Target
target expr legend color = record { expr = expr; legend = legend; color = color }

-- One statement after another.
infixl 20 ◌▸◌
abbrev pub ◌▸◌ : Board → (Board → Board) → Board
b ▸ statement = statement b

-- `panels.append(panel)`, for a panel that reads the board.
unfoldable pub append : (Board → Json) → Board → Board
append panel b = record b { panels = b.panels ++ panel b ∷ [] }

-- `y_pos += n`
unfoldable pub down : ℕ → Board → Board
down n b = record b { y_pos = b.y_pos + n }

-- The panel of `add_row`.
unfoldable pub row_panel : Text → Board → Json
row_panel title b = dict (
    ("type", quoted "row")
    ∷ ("title", str title)
    ∷ ("gridPos", dict (("h", int 1) ∷ ("w", int 24) ∷ ("x", int 0) ∷ ("y", int b.y_pos) ∷ []))
    ∷ ("id", int (length b.panels + 100))
    ∷ ("collapsed", bool false)
    ∷ [])

unfoldable pub add_row : Text → Board → Board
unfolding row_panel
add_row title b = b ▸ append (row_panel title) ▸ down 1
