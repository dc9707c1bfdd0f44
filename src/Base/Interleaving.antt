-- ===== src/Base/Interleaving.antt =====
-- The orders in which the steps of several sequences can come, each of which keeps its own order.
use Prim.Native.Nat.{ℕ, ◌+◌}
use mathlib.Core.Path.{◌≡◌, refl, ap}
use mathlib.Core.List.{List, [], ◌∷◌, ◌++◌}
use nex_pulse.Base.Lists.{All}
use native.Mathlib.Omega.{arith}

-- Each step is the next one of one of the sequences.
pub data Interleaves {A : Type 0} : List (List A) → List A → Type 0 where
  finished : (ts : List (List A)) → All (λ t. t ≡ []) ts → Interleaves ts []
  steps :
      (before : List (List A)) (o : A) (rest : List A) (after : List (List A)) {trace : List A}
      → Interleaves (before ++ rest ∷ after) trace
      → Interleaves (before ++ (o ∷ rest) ∷ after) (o ∷ trace)

module _ {A : Type 0} (weight : A → ℕ) where
  unfoldable pub total : List A → ℕ
  total [] = 0
  total (o ∷ os) = weight o + total os

  pub total-append : (os ps : List A) → total (os ++ ps) ≡ total os + total ps
  unfolding total
  total-append [] ps = omega arith
  total-append (o ∷ os) ps = omega (arith, total-append os ps)

  unfoldable pub totals : List (List A) → ℕ
  unfolding total
  totals [] = 0
  totals (t ∷ ts) = total t + totals ts

  totals-append : (ss ts : List (List A)) → totals (ss ++ ts) ≡ totals ss + totals ts
  unfolding totals
  totals-append [] ts = omega arith
  totals-append (s ∷ ss) ts = omega (arith, totals-append ss ts)

  totals_empty : (ts : List (List A)) → All (λ t. t ≡ []) ts → totals ts ≡ 0
  unfolding totals total
  totals_empty [] h = refl
  totals_empty (t ∷ ts) h = omega (arith, ap total h.0, totals_empty ts h.1)

  -- Each order has the steps of the sequences, so it has their sum.
  pub total-Interleaves :
      {ts : List (List A)} {trace : List A} → Interleaves ts trace → total trace ≡ totals ts
  unfolding totals total
  total-Interleaves (finished ts h) = omega (arith, totals_empty ts h)
  total-Interleaves (steps before o rest after i) = omega (
    arith,
    total-Interleaves i,
    totals-append before (rest ∷ after),
    totals-append before ((o ∷ rest) ∷ after),
  )

module _ {A : Type 0} (P : A → Type 0) where
  All-split :
      (before : List (List A)) (o : A) (rest : List A) (after : List (List A))
      → All (All P) (before ++ (o ∷ rest) ∷ after)
      → P o × All (All P) (before ++ rest ∷ after)
  All-split [] o rest after h = (h.0.0, (h.0.1, h.1))
  All-split (t ∷ before) o rest after h =
      let (now, later) = All-split before o rest after h.1 in (now, (h.0, later))

  -- What holds of all steps of the sequences holds of each order of them.
  pub All-Interleaves :
      {ts : List (List A)} {trace : List A} → Interleaves ts trace → All (All P) ts → All P trace
  All-Interleaves (finished ts h) all = tt
  All-Interleaves (steps before o rest after i) all =
      let (now, later) = All-split before o rest after all in (now, All-Interleaves i later)

  -- And the other way round.
  All-join :
      (before : List (List A)) (o : A) (rest : List A) (after : List (List A))
      → P o
      → All (All P) (before ++ rest ∷ after)
      → All (All P) (before ++ (o ∷ rest) ∷ after)
  All-join [] o rest after now h = ((now, h.0), h.1)
  All-join (t ∷ before) o rest after now h = (h.0, All-join before o rest after now h.1)

  All-empty : (ts : List (List A)) → All (λ t. t ≡ []) ts → All (All P) ts
  All-empty [] h = tt
  All-empty (t ∷ ts) h = (rw h.0 tt, All-empty ts h.1)

  pub Interleaves-All :
      {ts : List (List A)} {trace : List A} → Interleaves ts trace → All P trace → All (All P) ts
  Interleaves-All (finished ts h) all = All-empty ts h
  Interleaves-All (steps before o rest after i) all =
      All-join before o rest after all.0 (Interleaves-All i all.1)
