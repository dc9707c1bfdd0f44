-- ===== src/Tests/Scripts.antt =====
-- The scripts that rewrite the generator.
use nex_pulse.Base.{
  String, ◌≡◌, refl, true, false, not, some, List, [], ◌∷◌, ◌++◌, map, every, ◌==◌,
}
use nex_pulse.Text.{Text, codes, is_in, starts_with, strip, replace, is_space}
use nex_pulse.Text.Lines.{NoNewline-of-every, IsLines, none, line, write_lines}
use nex_pulse.Text.Decimal.{decimal}
use nex_pulse.Script.{written, exited, run_on}
use nex_pulse.MergeTop.{merge_top}
use nex_pulse.MergeTop.Block.{new_block}
use nex_pulse.MergeTop.Laws.{merge_top-replaces, merge_top-again}
use nex_pulse.MoveBack.{move_back, cut_from, place, row_comment}
use nex_pulse.MoveBack.Laws.{Moves, move_back-Moves, move_back-perm}
use nex_pulse.PopulateMap.{show, expr_of, inject, inject_line}
use nex_pulse.PopulateMap.Cities.{City, plus, minus, cities}
use nex_pulse.PopulateMap.Laws.{inject-inject}
use nex_pulse.PopulateMap.Quoting.{
  HasPlainName-of-every, expr_of-IsPlain, IsPlain-NoNewline, assigned_value,
  assigned_value-inject_line,
}
use nex_pulse.Restructure.{restructure, modify}
use nex_pulse.Restructure.Code.{api_code}
use nex_pulse.Restructure.Edits.{renamed, narrowed, modify-chart}
use nex_pulse.Restructure.Laws.{restructure-moves}
use mathlib.Core.List.{Perm}

-- A line with its end.
abbrev pub ln : String → Text
ln s = codes s ++ b'\n' ∷ []

pub known_line :
    (s : String) {ls : List Text}
    → every (λ c. not (c == b'\n')) (codes s) ≡ true
    → IsLines ls
    → IsLines (ln s ∷ ls)
known_line s h r = line (codes s) (NoNewline-of-every (codes s) h) r

abbrev kpis : Text
kpis = ln "    # ROW 1: KPIs"

abbrev ingress_row : Text
ingress_row = ln "    # ROW 2: HTTP Ingress"

merge_top-replaces_example :
    merge_top (
      ((ln "import json" ∷ []) ++ kpis ∷ (ln "    pass" ∷ [])) ++ ingress_row ∷ (ln "    end" ∷ []))
    ≡ written ((ln "import json" ∷ []) ++ new_block ∷ ingress_row ∷ (ln "    end" ∷ []))
unfolding is_in codes
merge_top-replaces_example =
    merge_top-replaces (ln "import json" ∷ []) kpis (ln "    pass" ∷ []) ingress_row
      (ln "    end" ∷ []) (refl, tt) refl (refl, (refl, (refl, tt))) refl

merge_top-again_example :
    run_on merge_top (
      run_on merge_top (
        write_lines (
          ((ln "import json" ∷ []) ++ kpis ∷ (ln "    pass" ∷ []))
          ++ ingress_row ∷ ((ln "    y" ∷ []) ++ ln "end" ∷ []))))
    ≡ write_lines ((ln "import json" ∷ []) ++ new_block ∷ ingress_row ∷ (ln "    y" ∷ []))
      ++ write_lines (new_block ∷ ingress_row ∷ ((ln "    y" ∷ []) ++ ln "end" ∷ []))
unfolding is_in codes every
merge_top-again_example =
    merge_top-again (ln "import json" ∷ []) kpis (ln "    pass" ∷ []) ingress_row (ln "    y" ∷ [])
      (ln "end")
      (known_line "import json" refl (
        known_line "    # ROW 1: KPIs" refl (
          known_line "    pass" refl (
            known_line "    # ROW 2: HTTP Ingress" refl
              (known_line "    y" refl (known_line "end" refl none))))))
      (refl, tt) refl (refl, (refl, (refl, tt))) refl (refl, (refl, (refl, tt)))

abbrev title_line : Text
title_line = ln "    add_row(\"Frontend Web Vitals & API Analytics\")"

abbrev generator : List Text
generator =
    ln "import json"
    ∷ title_line
    ∷ ln "    panels.append({})"
    ∷ ln "    # ROW 3: Latency"
    ∷ ln "    y_pos += 9"
    ∷ ln "    with open(path) as f:"
    ∷ []

abbrev generator_after : List Text
generator_after =
    ln "import json"
    ∷ ln "    # ROW 3: Latency"
    ∷ ln "    y_pos += 9"
    ∷ row_comment
    ∷ title_line
    ∷ ln "    panels.append({})"
    ∷ ln "    with open(path) as f:"
    ∷ []

move_back_run : move_back generator ≡ written generator_after
unfolding move_back cut_from place is_in starts_with strip codes is_space
move_back_run = refl

move_back_missing : move_back (ln "import json" ∷ []) ≡ exited "Could not find section!"
unfolding move_back is_in codes
move_back_missing = refl

move_back-perm_example : Perm generator_after (row_comment ∷ generator)
move_back-perm_example = move_back-perm generator generator_after move_back_run

move_back-Moves_example : Moves generator (move_back generator)
move_back-Moves_example = move_back-Moves generator

printed_coordinates :
    (show (minus 12) ≡ codes "-0.12")
    × (show (minus 7400) ≡ codes "-74.0")
    × (show (plus 490) ≡ codes "4.9")
unfolding show decimal codes
printed_coordinates = (refl, refl, refl)

abbrev map_line : Text
map_line = ln "    geomap_expr = 'vector(1)'"

abbrev one_city : List City
one_city = record { name = "Lagos"; lat = plus 652; lon = plus 337; val = 95 } ∷ []

inject-inject_example :
    run_on (inject (expr_of one_city)) (run_on (inject (expr_of cities)) map_line)
    ≡ run_on (inject (expr_of one_city)) map_line
unfolding every codes cities
inject-inject_example = inject-inject (expr_of cities) (expr_of one_city) map_line (
    IsPlain-NoNewline (expr_of cities) (expr_of-IsPlain cities (HasPlainName-of-every cities refl)))

assigned_value-inject_line_example :
    assigned_value (inject_line (expr_of cities) map_line) ≡ some (expr_of cities)
unfolding every codes cities starts_with strip is_space
assigned_value-inject_line_example =
    assigned_value-inject_line cities map_line (HasPlainName-of-every cities refl) refl

abbrev pub row7_line : Text
row7_line = ln "    # ROW 7: Web Vitals & Page Performance"

abbrev pub row3_line : Text
row3_line = ln "    # ROW 3: Latency"

abbrev pub dump_line : Text
dump_line =
    ln "    with open(r\"E:\\NexPulse\\infra\\grafana\\dashboards\\overview.json\", \"w\") as f:"

restructure-moves_example :
    restructure (
      ((ln "a" ∷ []) ++ row3_line ∷ (ln "b" ∷ []))
      ++ ((row7_line ∷ ln "c" ∷ []) ++ dump_line ∷ (ln "d" ∷ [])))
    ≡ written (
        (ln "a" ∷ [])
        ++ (modify false (row7_line ∷ ln "c" ∷ [])
            ++ row3_line ∷ ((ln "b" ∷ []) ++ dump_line ∷ (ln "d" ∷ []))))
unfolding is_in codes
restructure-moves_example =
    restructure-moves (ln "a" ∷ []) row3_line (ln "b" ∷ []) row7_line (ln "c" ∷ []) dump_line
      (ln "d" ∷ []) (refl, (refl, (refl, tt))) refl (refl, (refl, tt)) refl (refl, tt) refl

abbrev wide : Text
wide = ln "        \"gridPos\": {\"h\": 8, \"w\": 24, \"x\": 0, \"y\": y_pos},"

narrowed-wide :
    narrowed wide ≡ ln "        \"gridPos\": {\"h\": 8, \"w\": 12, \"x\": 0, \"y\": y_pos},"
unfolding replace codes
narrowed-wide = refl

modify-chart_example :
    modify false
      ((row7_line ∷ []) ++ wide ∷ ((ln "    })" ∷ []) ++ ln "    y_pos += 8" ∷ (ln "" ∷ [])))
    ≡ map renamed (row7_line ∷ [])
      ++ narrowed wide ∷ (map renamed (ln "    })" ∷ []) ++ api_code ∷ modify false (ln "" ∷ []))
unfolding is_in codes
modify-chart_example =
    modify-chart (row7_line ∷ []) wide (ln "    })" ∷ []) (ln "    y_pos += 8") (ln "" ∷ [])
      (refl, tt) refl refl (refl, tt) refl refl
