-- ===== src/Base/Slices.antt =====
-- Python's list indices, which may be negative, and the slices `l[:i]`, `l[i:]` and `del l[i:j]`.
use Prim.Native.Nat.{ℕ, zero, suc, ◌+◌, ◌-◌, max}
use mathlib.Core.Path.{◌≡◌, sym, ap, ◌∙◌}
use mathlib.Core.Option.{Option, none}
use mathlib.Core.List.{List, [], ◌∷◌, ◌++◌, append_assoc}
use native.Mathlib.Omega.{arith}
use nex_pulse.Base.Lists.{length, length-append, get_elem?, take, take_left, drop, drop_left}
use nex_pulse.Base.Tests.{leb, if◌then◌else◌}

-- `negsuc n` is -(n + 1).
pub data ℤ : Type 0 where
  pos : ℕ → ℤ
  negsuc : ℕ → ℤ

-- `i + 1`
abbrev pub succ : ℤ → ℤ
succ (pos n) = pos (n + 1)
succ (negsuc zero) = pos 0
succ (negsuc (suc n)) = negsuc n

-- `i - 1`
abbrev pub pred : ℤ → ℤ
pred (pos zero) = negsuc 0
pred (pos (suc n)) = pos n
pred (negsuc n) = negsuc (suc n)

module _ {ℓ} {A : Type ℓ} where
  -- A bound of a slice: a negative one counts from the end and stops at the start.
  abbrev pub bound : List A → ℤ → ℕ
  bound l (pos n) = n
  bound l (negsuc n) = length l - suc n

  -- `l[:i]`
  abbrev pub slice_to : List A → ℤ → List A
  slice_to l i = take (bound l i) l

  -- `l[i:]`
  abbrev pub slice_from : List A → ℤ → List A
  slice_from l i = drop (bound l i) l

  -- `l[i:j]`
  abbrev pub slice : List A → ℤ → ℤ → List A
  slice l i j = drop (bound l i) (take (bound l j) l)

  -- `l` after `del l[i:j]`, which deletes nothing if `j` lies before `i`.
  abbrev pub delete_slice : List A → ℤ → ℤ → List A
  delete_slice l i j = slice_to l i ++ drop (max (bound l i) (bound l j)) l

  -- `l[i]`, or `none` for an `IndexError`.
  abbrev pub item : List A → ℤ → Option A
  item l (pos n) = get_elem? l n
  item l (negsuc n) = if leb (suc n) (length l) then get_elem? l (length l - suc n) else none

module _ {ℓ} {A : Type ℓ} where
  -- `(xs + [x])[:-1]`
  pub slice_to-last : (xs : List A) (x : A) → slice_to (xs ++ x ∷ []) (negsuc 0) ≡ xs
  slice_to-last xs x =
      ap (λ n. take n (xs ++ x ∷ [])) (omega (arith, length-append xs (x ∷ [])))
      ∙ take_left xs (x ∷ [])

  -- `(xs + [x])[-1:]`
  pub slice_from-last : (xs : List A) (x : A) → slice_from (xs ++ x ∷ []) (negsuc 0) ≡ x ∷ []
  slice_from-last xs x =
      ap (λ n. drop n (xs ++ x ∷ [])) (omega (arith, length-append xs (x ∷ [])))
      ∙ drop_left xs (x ∷ [])

module _ {ℓ} {A : Type ℓ} (a m b : List A) (n : ℕ) (end : n ≡ length a + length m) where
  end-length : n ≡ length (a ++ m)
  end-length = omega (arith, length-append a m)

  -- `l[i:j]` between two indices that are known.
  pub slice-middle : slice (a ++ (m ++ b)) (pos (length a)) (pos n) ≡ m
  slice-middle = rw end-length (
      ap (drop (length a))
        (ap (take (length (a ++ m))) (sym (append_assoc a m b)) ∙ take_left (a ++ m) b)
      ∙ drop_left a m)

  -- The list without them.
  pub delete_slice-middle : delete_slice (a ++ (m ++ b)) (pos (length a)) (pos n) ≡ a ++ b
  delete_slice-middle = rw (take_left a (m ++ b)) (
      ap (λ k. a ++ drop k (a ++ (m ++ b))) (omega (arith, end-length))
      ∙ ap (λ t. a ++ drop (length (a ++ m)) t) (sym (append_assoc a m b))
      ∙ ap (λ t. a ++ t) (drop_left (a ++ m) b))
