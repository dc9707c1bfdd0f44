-- ===== src/Restructure/Edits.antt =====
-- What the loop of restructure.py makes of the block that it moves.
use nex_pulse.Base.{
  ◌≡◌, refl, ap, ◌∙◌, Bool, true, false, List, [], ◌∷◌, ◌++◌, map, arith, length, if◌then◌else◌,
}
use nex_pulse.Text.{Text, codes, replace}
use nex_pulse.Script.Find.{Misses}
use nex_pulse.Restructure.Code.{api_code}
use nex_pulse.Restructure.{is_header, is_full_width, is_step, modify}

-- The new name of the section, in the line that adds its row.
abbrev pub renamed : Text → Text
renamed line =
    if is_header line then replace line (codes "Page Analytics") (codes "API Analytics") else line

-- A line that takes half of the width.
abbrev pub narrowed : Text → Text
narrowed line = replace line (codes "\"w\": 24") (codes "\"w\": 12")

-- The loop writes as many lines as it reads.
pub length-modify : (f : Bool) (ls : List Text) → length (modify f ls) ≡ length ls
unfolding modify
length-modify f [] = refl
length-modify f (l ∷ ls) =
    ground (arith, length-modify f ls, length-modify true ls, length-modify false ls)

-- Outside the chart, lines that are not of full width are only renamed.
modify-before :
    (before ls : List Text)
    → Misses is_full_width before
    → modify false (before ++ ls) ≡ map renamed before ++ modify false ls
unfolding modify
modify-before [] ls _ = refl
modify-before (l ∷ before) ls (h, hs) = ground (arith, modify-before before ls hs)

-- Within the chart, lines that do not step on are only renamed.
modify-within :
    (within ls : List Text)
    → Misses is_step within
    → modify true (within ++ ls) ≡ map renamed within ++ modify true ls
unfolding modify
modify-within [] ls _ = refl
modify-within (l ∷ within) ls (h, hs) = ground (arith, modify-within within ls hs)

-- The first line that places a panel over the full width is narrowed to half of it, and the first
-- `y_pos += 8` behind that line gives way to the code of the second panel. Of the other lines up to
-- there only the heading of the section is renamed, and the lines behind are treated afresh.
pub modify-chart :
    (before : List Text) (chart : Text) (within : List Text) (step : Text) (behind : List Text)
    → Misses is_full_width before
    → is_full_width chart ≡ true
    → is_header chart ≡ false
    → Misses is_step within
    → is_step step ≡ true
    → is_header step ≡ false
    → modify false (before ++ chart ∷ (within ++ step ∷ behind))
      ≡ map renamed before
        ++ narrowed chart ∷ (map renamed within ++ api_code ∷ modify false behind)
modify-chart before chart within step behind hb c c' hw s s' =
    modify-before before (chart ∷ (within ++ step ∷ behind)) hb
    ∙ ap (λ t. map renamed before ++ t)
        (chart_lem (within ++ step ∷ behind)
          ∙ ap (λ t. narrowed chart ∷ t)
              (modify-within within (step ∷ behind) hw
                ∙ ap (λ t. map renamed within ++ t) step_lem))
  where
    chart_lem : (ls : List Text) → modify false (chart ∷ ls) ≡ narrowed chart ∷ modify true ls
    chart_lem ls = unfold modify in rw c' (rw c)

    step_lem : modify true (step ∷ behind) ≡ api_code ∷ modify false behind
    step_lem = unfold modify in ground arith
