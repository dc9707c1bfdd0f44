-- ===== src/Gateway/RateLimit/Times.antt =====
-- Lists of times: those without repetition, and those in a window.
use nex_pulse.Base.{
  ℕ, ◌≡◌, ◌≤◌, inl, inr, refl, ap, true, ◌&&◌, List, [], ◌∷◌, length, ◌==◌, if◌then◌else◌, arith,
  Bool-cases,
}
use nex_pulse.Query.Hub.{has, put, delete, Unique}
use nex_pulse.Query.Hub.Connections.{has-put, put-Unique, has-delete, delete-Unique, length-delete}
use nex_pulse.Gateway.RateLimit.Window.{newer}

unfoldable pub distinct : List ℕ → List ℕ
distinct [] = []
distinct (t ∷ ts) = put t (distinct ts)

-- The times that are newer than `start`.
unfoldable pub recent : ℕ → List ℕ → List ℕ
recent start [] = []
recent start (t ∷ ts) = let rest = recent start ts in if newer start t then t ∷ rest else rest

pub distinct-Unique : (ts : List ℕ) → Unique (distinct ts)
unfolding distinct Unique
distinct-Unique [] = tt
distinct-Unique (t ∷ ts) = put-Unique t (distinct ts) (distinct-Unique ts)

pub has-distinct : (m : ℕ) (ts : List ℕ) → has m (distinct ts) ≡ has m ts
unfolding distinct
has-distinct m [] = refl
has-distinct m (t ∷ ts) =
    let rest = has-distinct m ts in let added = has-put m t (distinct ts) in ground arith

pub has-recent : (m start : ℕ) (ts : List ℕ) → has m (recent start ts) ≡ (has m ts && newer start m)
unfolding recent
has-recent m start [] = refl
has-recent m start (t ∷ ts) =
    let rest = has-recent m start ts in
    elim (Bool-cases (m == t)) [
      | inl e ↦ (let e' : m ≡ t = ground arith in let n = ap (newer start) e' in ground arith)
      | inr e ↦ ground arith
    ]

-- Without repetition, a list inside another one is not longer.
pub length-within :
    (xs ys : List ℕ)
    → Unique xs
    → Unique ys
    → ((m : ℕ) → has m xs ≡ true → has m ys ≡ true)
    → length xs ≤ length ys
unfolding Unique
length-within [] ys u v within = omega arith
length-within (x ∷ xs) ys u v within =
    let here = within x (ground arith) in
    let rest =
      length-within xs (delete x ys) u.1 (delete-Unique x ys v)
        (λ m h. (let d = has-delete m x ys v in let w = within m in ground arith)) in
    omega (arith, rest, length-delete x ys here)
