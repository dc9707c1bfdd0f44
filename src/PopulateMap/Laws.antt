-- ===== src/PopulateMap/Laws.antt =====
-- What populate_map.py does to the lines of the generator, and to the text of the file.
use mathlib.Core.Path.{subst}
use nex_pulse.Base.{
  ◌≡◌, ◌≢◌, refl, sym, ap, ◌∙◌, Bool, true, false, List, [], ◌∷◌, ◌++◌, map, append_assoc,
  Bool-cases, inl, inr, All-append, every,
}
use nex_pulse.Text.{Text, codes, starts_with, is_space, lstrip, rstrip, strip, indent_of}
use nex_pulse.Text.Strip.{
  IsBlank, lstrip-append, rstrip-append, indent_of-append, indent_of-IsBlank, indent_of-NoNewline,
  indent_of-All,
}
use nex_pulse.Text.Lines.{
  NoNewline, NoNewline-of-every, IsLines, none, open_end, line, read_lines, write_lines,
  read_lines-IsLines, read_lines-write_lines,
}
use nex_pulse.Script.{run_on}
use nex_pulse.PopulateMap.{inject_line, inject}

-- The line assigns the map's expression.
abbrev pub assigns : Text → Bool
assigns l = starts_with (strip l) (codes "geomap_expr = ")

-- The new line, with the indentation `w`.
unfoldable pub assignment : Text → Text → Text
assignment w e = w ++ (codes "geomap_expr = '" ++ (e ++ codes "'\n"))

pub inject_line-assigns :
    (e l : Text) → assigns l ≡ true → inject_line e l ≡ assignment (indent_of l) e
unfolding inject_line assignment
inject_line-assigns e l h = rw h

inject_line-other : (e l : Text) → assigns l ≡ false → inject_line e l ≡ l
unfolding inject_line
inject_line-other e l h = rw h

pub lstrip-assignment : (w e : Text) → IsBlank w → lstrip (assignment w e) ≡ assignment [] e
unfolding assignment codes
lstrip-assignment w e h = lstrip-append w _ b'g' h (unfold is_space in refl)

strip-assignment :
    (w e : Text) → IsBlank w → strip (assignment w e) ≡ codes "geomap_expr = '" ++ (e ++ codes "'")
unfolding strip assignment codes
strip-assignment w e h =
    ap rstrip (lstrip-assignment w e h)
    ∙ rstrip-append (codes "geomap_expr = '" ++ e) (b'\n' ∷ []) b'\''
        (unfold is_space in (refl, tt)) (unfold is_space in refl)

assigns-assignment : (w e : Text) → IsBlank w → assigns (assignment w e) ≡ true
assigns-assignment w e h =
    ap (λ s. starts_with s (codes "geomap_expr = ")) (strip-assignment w e h)
    ∙ (unfold starts_with codes in refl)

indent_of-assignment : (w e : Text) → IsBlank w → indent_of (assignment w e) ≡ w
unfolding assignment codes
indent_of-assignment w e h = indent_of-append w _ b'g' h (unfold is_space in refl)

-- A later expression takes the place of an earlier one in the same line.
inject_line-inject_line : (e e' l : Text) → inject_line e' (inject_line e l) ≡ inject_line e' l
inject_line-inject_line e e' l = elim (Bool-cases (assigns l)) [
  | inr h ↦ ap (inject_line e') (inject_line-other e l h)
  | inl h ↦
      let w = indent_of-IsBlank l in
      ap (inject_line e') (inject_line-assigns e l h)
      ∙ inject_line-assigns e' (assignment (indent_of l) e) (assigns-assignment _ e w)
      ∙ ap (λ i. assignment i e') (indent_of-assignment _ e w)
      ∙ sym (inject_line-assigns e' l h)
]

map-inject_line :
    (e e' : Text) (ls : List Text)
    → map (inject_line e') (map (inject_line e) ls) ≡ map (inject_line e') ls
map-inject_line e e' [] = refl
map-inject_line e e' (l ∷ ls) = cc (inject_line-inject_line e e' l, map-inject_line e e' ls)

-- A line that assigns is not blank.
assigns-lstrip : (l : Text) → assigns l ≡ true → lstrip l ≢ []
unfolding strip starts_with codes
assigns-lstrip l h e = cc (h, ap (λ s. starts_with (rstrip s) (codes "geomap_expr = ")) e)

-- The new line without its end.
assignment-end :
    (w e : Text)
    → assignment w e ≡ (w ++ (codes "geomap_expr = '" ++ (e ++ codes "'"))) ++ b'\n' ∷ []
unfolding assignment codes
assignment-end w e =
    ap (λ t. w ++ (codes "geomap_expr = '" ++ t)) (sym (append_assoc e (codes "'") (b'\n' ∷ [])))
    ∙ sym (append_assoc w (codes "geomap_expr = '" ++ (e ++ codes "'")) (b'\n' ∷ []))

marks-NoNewline : NoNewline (codes "geomap_expr = '") × NoNewline (codes "'")
unfolding codes every
marks-NoNewline =
    (NoNewline-of-every (codes "geomap_expr = '") refl, NoNewline-of-every (codes "'") refl)

assignment-IsLines :
    (w e : Text) {ls : List Text}
    → NoNewline w
    → NoNewline e
    → IsLines ls
    → IsLines (assignment w e ∷ ls)
assignment-IsLines w e {ls} nw ne h =
    subst (λ t. IsLines (t ∷ ls)) (sym (assignment-end w e))
      (line _
        (All-append _ w _ nw (
          All-append _ (codes "geomap_expr = '") _ marks-NoNewline.0
            (All-append _ e _ ne marks-NoNewline.1)))
        h)

inject-IsLines :
    (e : Text) → NoNewline e → {ls : List Text} → IsLines ls → IsLines (map (inject_line e) ls)
inject-IsLines e ne none = none
inject-IsLines e ne (open_end l ne' n) = elim (Bool-cases (assigns l)) [
  | inl h ↦
      rw (inject_line-assigns e l h)
        (assignment-IsLines (indent_of l) e (indent_of-All _ l n) ne none)
  | inr h ↦ rw (inject_line-other e l h) (open_end l ne' n)
]
inject-IsLines e ne (line l n r) = elim (Bool-cases (assigns (l ++ b'\n' ∷ []))) [
  | inl h ↦ rw (inject_line-assigns e (l ++ b'\n' ∷ []) h) (
      assignment-IsLines (indent_of (l ++ b'\n' ∷ [])) e
        (indent_of-NoNewline l n (assigns-lstrip (l ++ b'\n' ∷ []) h)) ne (inject-IsLines e ne r))
  | inr h ↦ rw (inject_line-other e (l ++ b'\n' ∷ []) h) (line l n (inject-IsLines e ne r))
]

-- A run over the text of a file: the line that assigns is replaced wherever it stands.
run_on-inject :
    (e t : Text) → run_on (inject e) t ≡ write_lines (map (inject_line e) (read_lines t))
unfolding run_on inject
run_on-inject e t = refl

-- For every text of the generator and two expressions, of which the earlier one holds no newline:
-- writing the one and then the other leaves exactly the text that writing the later one alone
-- leaves. So a second run of the script with the same table changes nothing.
pub inject-inject :
    (e e' t : Text) → NoNewline e → run_on (inject e') (run_on (inject e) t) ≡ run_on (inject e') t
inject-inject e e' t n =
    ap (run_on (inject e')) (run_on-inject e t)
    ∙ run_on-inject e' (write_lines (map (inject_line e) (read_lines t)))
    ∙ ap (λ ls. write_lines (map (inject_line e') ls))
        (read_lines-write_lines _ (inject-IsLines e n (read_lines-IsLines t)))
    ∙ ap write_lines (map-inject_line e e' (read_lines t))
    ∙ sym (run_on-inject e' t)
