-- ===== src/Text/Same.antt =====
-- The comparison of texts decides equality.
use nex_pulse.Base.{◌≡◌, refl, true, [], ◌∷◌, arith}
use nex_pulse.Text.Chars.{Text, same}

pub same-eq : (s t : Text) → same s t ≡ true → s ≡ t
unfolding same
same-eq [] [] h = refl
same-eq (c ∷ s) (d ∷ t) h = let rest = same-eq s t in grind arith
same-eq [] (d ∷ t) h = absurd (cc)
same-eq (c ∷ s) [] h = absurd (cc)

pub same_refl : (s : Text) → same s s ≡ true
unfolding same
same_refl [] = refl
same_refl (c ∷ s) = ground (arith, same_refl s)
