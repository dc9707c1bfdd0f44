-- ===== src/PopulateMap/Quoting.antt =====
-- The line that populate_map.py writes is an assignment of a well-formed Python literal.
use mathlib.Core.Option
use nex_pulse.Base.{
  ℕ, ◌+◌, ◌/◌, ◌%◌, ◌<◌, String, ◌≡◌, refl, ap, ◌∙◌, Bool, true, not, ◌&&◌, ◌||◌, Option, some,
  none, List, [], ◌∷◌, ◌++◌, map, Bool-cases, inl, inr, arith, All, All-append, All-map, every,
  every-All, ◌==◌, length, drop, if◌then◌else◌,
}
use nex_pulse.Text.{Text, codes, lstrip, indent_of}
use nex_pulse.Text.Strip.{indent_of-IsBlank}
use nex_pulse.Text.Lines.{NoNewline}
use nex_pulse.Text.Decimal.{decimal, IsDigit, decimal-digits}
use nex_pulse.PopulateMap.Cities.{City, Coordinate, plus, minus}
use nex_pulse.PopulateMap.{places, show, query, join, expr_of, inject_line}
use nex_pulse.PopulateMap.Laws.{assigns, inject_line-assigns, assignment, lstrip-assignment}

-- A character that stands for itself in a literal between single quotes.
abbrev pub plain : ℕ → Bool
plain c = not (c == b'\'') && not (c == b'\\') && not (c == b'\n')

abbrev pub IsPlain : Text → Type 0
IsPlain = All (λ c. plain c ≡ true)

abbrev pub HasPlainName : City → Type 0
HasPlainName c = IsPlain (codes c.name)

-- The value of a literal without escapes, from behind its opening quote: the text up to the quote
-- that closes it, and nothing if the line ends or an escape begins before.
pub read_literal : Text → Option Text
read_literal [] = none
read_literal (c ∷ s) =
    let rest = Option.map (λ t. c ∷ t) (read_literal s) in
    if c == b'\'' then some [] else if c == b'\\' || c == b'\n' then none else rest

-- The value that a line of the form `geomap_expr = '…'` assigns.
pub assigned_value : Text → Option Text
unfolding read_literal codes lstrip
assigned_value line = read_literal (drop (length (codes "geomap_expr = '")) (lstrip line))

read_literal-plain : (e s : Text) → IsPlain e → read_literal (e ++ b'\'' ∷ s) ≡ some e
unfolding read_literal
read_literal-plain [] s _ = refl
read_literal-plain (c ∷ e) s (h, hs) = ground (arith, read_literal-plain e s hs)

IsDigit-plain : (c : ℕ) → IsDigit c → plain c ≡ true
IsDigit-plain c h = ground arith

decimal-IsPlain : (n : ℕ) → IsPlain (decimal n)
decimal-IsPlain n = All-map IsDigit-plain (decimal n) (decimal-digits n)

digit-IsPlain : (d : ℕ) → d < 10 → plain (48 + d) ≡ true
digit-IsPlain d h = ground arith

places-IsPlain : (k : ℕ) → k < 100 → IsPlain (places k)
unfolding places
places-IsPlain k h = elim (Bool-cases (k % 10 == 0)) [
  | inl e ↦ rw e (digit-IsPlain (k / 10) (omega arith), tt)
  | inr e ↦ rw e (digit-IsPlain (k / 10) (omega arith), (digit-IsPlain (k % 10) (omega arith), tt))
]

digits-IsPlain : (k : ℕ) → IsPlain (decimal (k / 100) ++ b'.' ∷ places (k % 100))
digits-IsPlain k =
    All-append _ (decimal (k / 100)) _ (decimal-IsPlain (k / 100))
      (refl, places-IsPlain (k % 100) (omega arith))

show-IsPlain : (x : Coordinate) → IsPlain (show x)
unfolding show
show-IsPlain (plus k) = digits-IsPlain k
show-IsPlain (minus k) = (refl, digits-IsPlain k)

-- The names of a table that is known, by a test.
pub HasPlainName-of-every :
    (table : List City)
    → every (λ c. every plain (codes c.name)) table ≡ true
    → All HasPlainName table
HasPlainName-of-every table h =
    All-map (λ c e. every-All plain (codes c.name) e) table (every-All _ table h)

-- A literal piece in front of a text.
literal :
    (s : String) (t : Text) → every plain (codes s) ≡ true → IsPlain t → IsPlain (codes s ++ t)
literal s t h p = All-append _ (codes s) t (every-All plain (codes s) h) p

query-IsPlain : (c : City) → HasPlainName c → IsPlain (query c)
unfolding query codes every
query-IsPlain c h = literal "label_replace(label_replace(label_replace(vector(" _ refl (
    All-append _ (decimal c.val) _ (decimal-IsPlain c.val) (
      literal "), \"city\", \"" _ refl (
        All-append _ (codes c.name) _ h (
          literal "\", \"\", \"\"), \"lat\", \"" _ refl (
            All-append _ (show c.lat) _ (show-IsPlain c.lat) (
              literal "\", \"\", \"\"), \"lon\", \"" _ refl (
                All-append _ (show c.lon) _ (show-IsPlain c.lon)
                  (every-All plain (codes "\", \"\", \"\")") refl))))))))

join-IsPlain : (sep : Text) (ts : List Text) → IsPlain sep → All IsPlain ts → IsPlain (join sep ts)
unfolding join
join-IsPlain sep [] _ _ = tt
join-IsPlain sep (t ∷ []) _ (h, _) = h
join-IsPlain sep (t ∷ u ∷ ts) hs (h, hts) =
    All-append _ t _ h (All-append _ sep _ hs (join-IsPlain sep (u ∷ ts) hs hts))

queries-IsPlain : (table : List City) → All HasPlainName table → All IsPlain (map query table)
queries-IsPlain [] _ = tt
queries-IsPlain (c ∷ cs) (h, hs) = (query-IsPlain c h, queries-IsPlain cs hs)

-- The expression of a table holds no quote, backslash or newline if no name does.
pub expr_of-IsPlain : (table : List City) → All HasPlainName table → IsPlain (expr_of table)
unfolding expr_of
expr_of-IsPlain table h =
    join-IsPlain (codes " or ") (map query table)
      (unfold codes every in every-All plain (codes " or ") refl) (queries-IsPlain table h)

pub IsPlain-NoNewline : (t : Text) → IsPlain t → NoNewline t
IsPlain-NoNewline t h = All-map (λ c e. ground arith) t h

-- For every table whose city names hold no single quote, backslash or newline, the line that is
-- written into the generator is an assignment whose literal closes where the script meant it to:
-- its value is exactly the joined expression.
pub assigned_value-inject_line :
    (table : List City) (line : Text)
    → All HasPlainName table
    → assigns line ≡ true
    → assigned_value (inject_line (expr_of table) line) ≡ some (expr_of table)
unfolding assigned_value assignment
assigned_value-inject_line table line h a =
    ap assigned_value (inject_line-assigns (expr_of table) line a)
    ∙ ap (λ s. read_literal (drop (length (codes "geomap_expr = '")) s))
        (lstrip-assignment (indent_of line) (expr_of table) (indent_of-IsBlank line))
    ∙ (unfold codes in read_literal-plain (expr_of table) (b'\n' ∷ []) (expr_of-IsPlain table h))
