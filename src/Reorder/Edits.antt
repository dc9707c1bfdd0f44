-- ===== src/Reorder/Edits.antt =====
-- What restructure.py makes of the section of web vitals.
use nex_pulse.Base.{◌≡◌, refl, ap, ◌∙◌, true, false, List, [], ◌∷◌, ◌++◌, arith}
use nex_pulse.Text.{Text, codes, is_in, replace}
use nex_pulse.Script.Find.{Misses}
use nex_pulse.Restructure.{is_header, is_step, modify}
use nex_pulse.Restructure.Code.{api_code}
use nex_pulse.Reorder.{
  old_title, new_title, wide, half, Kept, Generator, old_body, IsGenerator, rewritten,
}

modify-before :
    (ls rest : List Text) → Kept ls → modify false (ls ++ rest) ≡ ls ++ modify false rest
unfolding modify
modify-before [] rest h = refl
modify-before (l ∷ ls) rest (h, w) =
    let ih = modify-before ls rest (h.1, w.1) in ground (arith, h.0, w.0)

modify_all : (ls : List Text) → Kept ls → modify false ls ≡ ls
unfolding modify
modify_all [] h = refl
modify_all (l ∷ ls) (h, w) = let ih = modify_all ls (h.1, w.1) in ground (arith, h.0, w.0)

modify-within :
    (ls rest : List Text)
    → Misses is_header ls
    → Misses is_step ls
    → modify true (ls ++ rest) ≡ ls ++ modify true rest
unfolding modify
modify-within [] rest h s = refl
modify-within (l ∷ ls) rest h s = let ih = modify-within ls rest h.1 s.1 in ground (arith, h.0, s.0)

modify-old_title : (ls : List Text) → modify false (old_title ∷ ls) ≡ new_title ∷ modify false ls
unfolding modify is_in codes replace
modify-old_title ls = refl

modify-wide : (ls : List Text) → modify false (wide ∷ ls) ≡ half ∷ modify true ls
unfolding modify is_in codes replace
modify-wide ls = refl

modify-step :
    (step : Text) (ls : List Text)
    → is_header step ≡ false
    → is_step step ≡ true
    → modify true (step ∷ ls) ≡ api_code ∷ modify false ls
unfolding modify
modify-step step ls h s = ground arith

pub modify-section :
    (g : Generator) → IsGenerator g → modify false (g.row7 ∷ old_body g) ≡ rewritten g
modify-section g ok =
    let inner = g.chart ++ g.step ∷ g.tail in
    modify-before (g.row7 ∷ g.gap) (old_title ∷ (g.heading ++ wide ∷ inner)) ok.front_kept
    ∙ ap (λ t. (g.row7 ∷ g.gap) ++ t)
        (modify-old_title (g.heading ++ wide ∷ inner)
          ∙ ap (λ t. new_title ∷ t)
              (modify-before g.heading (wide ∷ inner) ok.heading_kept
                ∙ ap (λ t. g.heading ++ t)
                    (modify-wide inner
                      ∙ ap (λ t. half ∷ t)
                          (modify-within g.chart (g.step ∷ g.tail) ok.chart_headers ok.chart_steps
                            ∙ ap (λ t. g.chart ++ t)
                                (modify-step g.step g.tail ok.step_header ok.step
                                  ∙ ap (λ t. api_code ∷ t) (modify_all g.tail ok.tail_kept))))))
