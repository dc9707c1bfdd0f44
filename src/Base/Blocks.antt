-- ===== src/Base/Blocks.antt =====
-- Lists that are moved about in blocks, up to the order of their items.
use mathlib.Core.Path.{subst₂}
use mathlib.Core.List.{List, ◌++◌, append_assoc, Perm, perm_append_comm, perm-append_right_iff}

-- Two neighbouring blocks may change places.
pub perm_blocks {ℓ} : {A : Type ℓ} (a b c : List A) → Perm (a ++ (b ++ c)) (b ++ (a ++ c))
perm_blocks a b c =
    subst₂ Perm (append_assoc a b c) (append_assoc b a c)
      ((perm-append_right_iff c).1 (perm_append_comm a b))
