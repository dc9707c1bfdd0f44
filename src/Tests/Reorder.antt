-- ===== src/Tests/Reorder.antt =====
-- Both scripts that move the section of web vitals, on a small generator.
use nex_pulse.Base.{◌≡◌, refl, every, false, [], ◌∷◌, ◌++◌}
use nex_pulse.Text.{codes, is_in, starts_with, strip, is_space}
use nex_pulse.Text.Lines.{IsLines, none, write_lines}
use nex_pulse.Script.{run_on}
use nex_pulse.Restructure.{is_dump, is_row3, restructure, modify}
use nex_pulse.Script.Find.{Misses}
use nex_pulse.MoveBack.{move_back}
use nex_pulse.Reorder.{Generator, source, reordered, IsGenerator}
use nex_pulse.Reorder.Back.{move_back-restructure}
use nex_pulse.Reorder.Again.{second_body, restructure-again}
use nex_pulse.Tests.Scripts.{ln, known_line, row7_line, row3_line, dump_line}

abbrev small : Generator
small = record {
  before = ln "import json" ∷ [];
  row3 = row3_line;
  mid = ln "    y_pos += 9" ∷ [];
  row7 = row7_line;
  gap = [];
  heading = ln "    panels.append({" ∷ [];
  chart = ln "    })" ∷ [];
  step = ln "    y_pos += 8";
  tail = ln "    y_pos += 10" ∷ [];
  dump = dump_line;
  behind = ln "        json.dump(dashboard, f, indent=2)" ∷ ln "create_dashboard()" ∷ [];
}

small-IsLines : IsLines (source small)
unfolding codes every
small-IsLines = known_line "import json" refl (
    known_line "    # ROW 3: Latency" refl (
      known_line "    y_pos += 9" refl (
        known_line "    # ROW 7: Web Vitals & Page Performance" refl (
          known_line "    add_row(\"Frontend Web Vitals & Page Analytics\")" refl (
            known_line "    panels.append({" refl (
              known_line "        \"gridPos\": {\"h\": 8, \"w\": 24, \"x\": 0, \"y\": y_pos}," refl
                (known_line "    })" refl (
                  known_line "    y_pos += 8" refl (
                    known_line "    y_pos += 10" refl (
                      known_line
                        "    with open(r\"E:\\NexPulse\\infra\\grafana\\dashboards\\overview.json\", \"w\") as f:"
                        refl
                        (known_line "        json.dump(dashboard, f, indent=2)" refl
                          (known_line "create_dashboard()" refl none))))))))))))

small-IsGenerator : IsGenerator small
unfolding codes is_in starts_with strip is_space
small-IsGenerator = record {
  lines = small-IsLines;
  row7s = (refl, (refl, (refl, tt)));
  row7 = refl;
  dumps = (refl, (refl, (refl, (refl, (refl, (refl, (refl, tt)))))));
  dump = refl;
  row3s = (refl, tt);
  row3 = refl;
  front_kept = ((refl, tt), (refl, tt));
  heading_kept = ((refl, tt), (refl, tt));
  chart_headers = (refl, tt);
  chart_steps = (refl, tt);
  step_header = refl;
  step = refl;
  tail_kept = ((refl, tt), (refl, tt));
  titles = (refl, (refl, tt));
  heading_stops = (refl, tt);
  chart_stops = (refl, tt);
  tail_stops = (refl, tt);
  row3_stop = refl;
  writes = (refl, (refl, (refl, (refl, tt))));
  write = refl;
}

move_back-restructure_example :
    run_on move_back (run_on restructure (write_lines (source small)))
    ≡ write_lines (reordered small)
move_back-restructure_example = move_back-restructure small small-IsGenerator

between_dumps : Misses is_dump (row3_line ∷ ln "    y_pos += 9" ∷ [])
unfolding codes is_in
between_dumps = (refl, (refl, tt))

outside_row3s : Misses is_row3 (small.dump ∷ small.behind)
unfolding codes is_in
outside_row3s = (refl, (refl, (refl, tt)))

restructure-again_example :
    run_on restructure (run_on move_back (run_on restructure (write_lines (source small))))
    ≡ write_lines (
        ((ln "import json" ∷ [])
          ++ dump_line ∷ (ln "        json.dump(dashboard, f, indent=2)" ∷ []))
        ++ (modify false (row7_line ∷ second_body small) ++ ln "create_dashboard()" ∷ []))
restructure-again_example =
    restructure-again small (ln "        json.dump(dashboard, f, indent=2)" ∷ [])
      (ln "create_dashboard()") small-IsGenerator refl between_dumps outside_row3s
