-- ===== src/Text/Chars.antt =====
-- Python's `str` as a list of code points, with the methods that the scripts call on a line:
-- `in`, `startswith`, `replace`, `lstrip` and `strip`.
use Prim.Native.Char.{code}
use nex_pulse.Base.{
  ℕ, zero, suc, ◌-◌, String, Bool, true, false, ◌&&◌, ◌||◌, List, [], ◌∷◌, ◌++◌, leb, ◌==◌, length,
  take, if◌then◌else◌,
}

abbrev pub Text : Type 0
Text = List ℕ

-- The text of a literal.
unfoldable pub codes : String → Text
codes String.[] = []
codes (String.◌∷◌ c s) = code c ∷ codes s

-- `s == t`
unfoldable pub same : Text → Text → Bool
same [] [] = true
same (c ∷ s) (d ∷ t) = c == d && same s t
same _ _ = false

-- `s.startswith(p)`
unfoldable pub starts_with : Text → Text → Bool
starts_with s [] = true
starts_with [] (d ∷ p) = false
starts_with (c ∷ s) (d ∷ p) = c == d && starts_with s p

-- `p in s`
unfoldable pub is_in : Text → Text → Bool
unfolding starts_with
is_in p [] = starts_with [] p
is_in p (c ∷ s) = starts_with (c ∷ s) p || is_in p s

-- The rest of `s.replace(old, new)` where `skip` characters of a match are still to be passed over.
replace_from : Text → Text → ℕ → Text → Text
unfolding starts_with
replace_from old new skip [] = []
replace_from old new (suc skip) (c ∷ s) = replace_from old new skip s
replace_from old new zero (c ∷ s) =
    let found = new ++ replace_from old new (length old - 1) s in
    let passed = c ∷ replace_from old new 0 s in if starts_with (c ∷ s) old then found else passed

-- `s.replace(old, new)` for an `old` that is not empty: the matches from the left, none overlapping.
unfoldable pub replace : Text → Text → Text → Text
unfolding replace_from
replace s old new = replace_from old new 0 s

abbrev within : ℕ → ℕ → ℕ → Bool
within lo hi c = leb lo c && leb c hi

-- `str.isspace` of one character.
unfoldable pub is_space : ℕ → Bool
is_space c =
    within 9 13 c
    || within 28 32 c
    || c == 0x85
    || c == 0xa0
    || c == 0x1680
    || within 0x2000 0x200a c
    || within 0x2028 0x2029 c
    || c == 0x202f
    || c == 0x205f
    || c == 0x3000

-- `s.lstrip()`
unfoldable pub lstrip : Text → Text
unfolding is_space
lstrip [] = []
lstrip (c ∷ s) = let rest = lstrip s in if is_space c then rest else c ∷ s

-- One more character before a text that `rstrip` has left.
prepend : ℕ → Text → Text
unfolding is_space
prepend c [] = if is_space c then [] else c ∷ []
prepend c (d ∷ s) = c ∷ d ∷ s

-- `s.rstrip()`
unfoldable pub rstrip : Text → Text
unfolding prepend
rstrip [] = []
rstrip (c ∷ s) = prepend c (rstrip s)

-- `s.strip()`
unfoldable pub strip : Text → Text
unfolding lstrip rstrip
strip s = rstrip (lstrip s)

-- `s[:len(s) - len(s.lstrip())]`
unfoldable pub indent_of : Text → Text
unfolding lstrip
indent_of s = take (length s - length (lstrip s)) s

-- A literal of several lines, each of which ends in `\n`.
unfoldable pub unlines : List String → Text
unfolding codes
unlines [] = []
unlines (l ∷ ls) = codes l ++ b'\n' ∷ unlines ls
