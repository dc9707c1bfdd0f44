-- ===== src/Text/Lines.antt =====
-- `f.readlines()` and `f.writelines(lines)` on the text of a file, after Python's translation of
-- line ends to `\n`.
use mathlib.Core.Path.{subst}
use nex_pulse.Base.{
  ℕ, ◌≡◌, ◌≢◌, refl, sym, ap, ◌∙◌, true, false, List, [], ◌∷◌, ◌++◌, append_assoc, append-nil, ◌==◌,
  ==_iff, Bool-cases, inl, inr, arith, not, All, All-map, every, every-All, if◌then◌else◌,
}
use nex_pulse.Text.Chars.{Text}

-- A line carries its `\n`; the last one of a file may have none.
attach : ℕ → List Text → List Text
attach c [] = (c ∷ []) ∷ []
attach c (l ∷ ls) = (c ∷ l) ∷ ls

unfoldable pub read_lines : Text → List Text
unfolding attach
read_lines [] = []
read_lines (c ∷ s) =
    let rest = read_lines s in if c == b'\n' then (c ∷ []) ∷ rest else attach c rest

unfoldable pub write_lines : List Text → Text
write_lines [] = []
write_lines (l ∷ ls) = l ++ write_lines ls

abbrev pub NoNewline : Text → Type 0
NoNewline = All (λ c. (c == b'\n') ≡ false)

-- What `readlines` can return: every line ends in its only `\n`, but the last, which is not empty,
-- may have none.
pub data IsLines : List Text → Type 0 where
  none : IsLines []
  open_end : (l : Text) → l ≢ [] → NoNewline l → IsLines (l ∷ [])
  line : (l : Text) {ls : List Text} → NoNewline l → IsLines ls → IsLines ((l ++ b'\n' ∷ []) ∷ ls)

write_lines-attach : (c : ℕ) (ls : List Text) → write_lines (attach c ls) ≡ c ∷ write_lines ls
unfolding write_lines attach
write_lines-attach c [] = refl
write_lines-attach c (l ∷ ls) = refl

-- Writing back the lines that were read gives the text that was read.
pub write_lines-read_lines : (s : Text) → write_lines (read_lines s) ≡ s
unfolding read_lines write_lines
write_lines-read_lines [] = refl
write_lines-read_lines (c ∷ s) =
    ground (arith, write_lines-read_lines s, write_lines-attach c (read_lines s))

pub write_lines-append :
    (ls ms : List Text) → write_lines (ls ++ ms) ≡ write_lines ls ++ write_lines ms
unfolding write_lines
write_lines-append [] ms = refl
write_lines-append (l ∷ ls) ms =
    ap (λ t. l ++ t) (write_lines-append ls ms)
    ∙ sym (append_assoc l (write_lines ls) (write_lines ms))

attach-IsLines :
    (c : ℕ) (ls : List Text) → (c == b'\n') ≡ false → IsLines ls → IsLines (attach c ls)
unfolding attach
attach-IsLines c _ h none = open_end (c ∷ []) (λ e. cc) (h, tt)
attach-IsLines c _ h (open_end l ne n) = open_end (c ∷ l) (λ e. cc) (h, n)
attach-IsLines c _ h (line l n r) = line (c ∷ l) (h, n) r

pub read_lines-IsLines : (s : Text) → IsLines (read_lines s)
unfolding read_lines
read_lines-IsLines [] = none
read_lines-IsLines (c ∷ s) = elim (Bool-cases (c == b'\n')) [
  | inl e ↦ rw e (rw ((==_iff c b'\n').0 e) (line [] tt (read_lines-IsLines s)))
  | inr e ↦ rw e (attach-IsLines c (read_lines s) e (read_lines-IsLines s))
]

read_lines_open : (l : Text) → l ≢ [] → NoNewline l → read_lines l ≡ l ∷ []
unfolding read_lines
read_lines_open [] ne n = absurd (ne refl)
read_lines_open (c ∷ []) ne (h, _) = rw h
read_lines_open (c ∷ d ∷ l) ne (h, n) = rw h (rw (read_lines_open (d ∷ l) (λ e. cc) n) refl)

read_lines_line :
    (l s : Text)
    → NoNewline l
    → read_lines ((l ++ b'\n' ∷ []) ++ s) ≡ (l ++ b'\n' ∷ []) ∷ read_lines s
unfolding read_lines
read_lines_line [] s n = refl
read_lines_line (c ∷ l) s (h, n) = rw h (rw (read_lines_line l s n) refl)

-- Reading what was written gives the lines back.
pub read_lines-write_lines : (ls : List Text) → IsLines ls → read_lines (write_lines ls) ≡ ls
unfolding write_lines
read_lines-write_lines _ none = unfold read_lines in refl
read_lines-write_lines _ (open_end l ne n) = rw append-nil (read_lines_open l ne n)
read_lines-write_lines _ (line l {ls} n r) =
    read_lines_line l (write_lines ls) n
    ∙ ap (λ t. (l ++ b'\n' ∷ []) ∷ t) (read_lines-write_lines ls r)

-- Lines that all end in `\n`, so that more can follow them.
abbrev pub IsClosed : List Text → Type 0
IsClosed = All (λ l. (b : Text) × (l ≡ b ++ b'\n' ∷ []) × NoNewline b)

-- The first line of several is closed, and the rest are lines.
IsLines-uncons :
    (l : Text) (m : Text) (ms : List Text)
    → IsLines (l ∷ m ∷ ms)
    → ((b : Text) × (l ≡ b ++ b'\n' ∷ []) × NoNewline b) × IsLines (m ∷ ms)
IsLines-uncons _ m ms (line b n r) = ((b, refl, n), r)

-- Of the lines of a file, those before another one are closed, and those from it on are lines.
pub IsLines-split :
    (ls : List Text) (m : Text) (ms : List Text)
    → IsLines (ls ++ m ∷ ms)
    → IsClosed ls × IsLines (m ∷ ms)
IsLines-split [] m ms h = (tt, h)
IsLines-split (l ∷ []) m ms h = let (c, r) = IsLines-uncons l m ms h in ((c, tt), r)
IsLines-split (l ∷ k ∷ ls) m ms h =
    let (c, r) = IsLines-uncons l k (ls ++ m ∷ ms) h in
    let (cs, rest) = IsLines-split (k ∷ ls) m ms r in ((c, cs), rest)

pub read_lines-closed :
    (ls : List Text) (s : Text)
    → IsClosed ls
    → read_lines (write_lines ls ++ s) ≡ ls ++ read_lines s
unfolding write_lines
read_lines-closed [] s _ = refl
read_lines-closed (l ∷ ls) s ((b, e, n), h) = rw e (
    ap read_lines (append_assoc (b ++ b'\n' ∷ []) (write_lines ls) s)
    ∙ read_lines_line b (write_lines ls ++ s) n
    ∙ ap (λ t. (b ++ b'\n' ∷ []) ∷ t) (read_lines-closed ls s h))

-- A text whose last line is closed, by a test with a character behind it.
pub read_lines-IsClosed :
    (t : Text)
    → read_lines (t ++ b'x' ∷ []) ≡ read_lines t ++ (b'x' ∷ []) ∷ []
    → IsClosed (read_lines t)
read_lines-IsClosed t probe =
    (IsLines-split (read_lines t) (b'x' ∷ []) []
      (subst IsLines probe (read_lines-IsLines (t ++ b'x' ∷ [])))).0

-- What stands behind such a text is read by itself.
pub read_lines-append :
    (t s : Text) → IsClosed (read_lines t) → read_lines (t ++ s) ≡ read_lines t ++ read_lines s
read_lines-append t s h =
    ap (λ u. read_lines (u ++ s)) (sym (write_lines-read_lines t))
    ∙ read_lines-closed (read_lines t) s h

-- `NoNewline` of a text that is known, by a test.
pub NoNewline-of-every : (s : Text) → every (λ c. not (c == b'\n')) s ≡ true → NoNewline s
NoNewline-of-every s h = All-map (λ c e. ground arith) s (every-All _ s h)

pub IsLines-append : (ls ms : List Text) → IsClosed ls → IsLines ms → IsLines (ls ++ ms)
IsLines-append [] ms h m = m
IsLines-append (l ∷ ls) ms ((b, e, n), h) m = rw e (line b n (IsLines-append ls ms h m))
