-- ===== src/Tests/SortedSet.antt =====
-- A sorted set that has the documented law of ZREVRANGE.
use nex_pulse.Base.{
  ℕ, suc, ◌-◌, ◌≡◌, ◌≤◌, ◌<◌, refl, ap, ◌∙◌, Bool, true, false, ◌||◌, List, [], ◌∷◌, ◌++◌, length,
  take, drop, leb, All, if◌then◌else◌, arith, Bool-cases, inl, inr,
}
use nex_pulse.Base.Slices.{ℤ, pos, negsuc}
use nex_pulse.Text.{Text, same}
use nex_pulse.Text.Same.{same-eq}
use nex_pulse.Aggregator.{Command, incr, zincrby}
use nex_pulse.Aggregator.Leaderboard.{added, score}
use nex_pulse.Query.Leaderboard.{Entry}
use nex_pulse.Query.Leaderboard.Top.{listed, IsDistinct, IsDescending, IsRanking}

unfoldable pub insert : Entry → List Entry → List Entry
insert e [] = e ∷ []
insert e (f ∷ l) = let rest = insert e l in if leb f.1 e.1 then e ∷ f ∷ l else f ∷ rest

-- The users with their scores, each once, the highest score first.
unfoldable pub rank : (Text → ℕ) → List Text → List Entry
unfolding insert listed
rank value [] = []
rank value (u ∷ us) =
    let rest = rank value us in if listed u rest then rest else insert (u, value u) rest

users_of : Text → List Command → List Text
users_of key [] = []
users_of key (incr k ∷ cs) = users_of key cs
users_of key (zincrby k n u ∷ cs) =
    let rest = users_of key cs in if same k key then u ∷ rest else rest

users : Text → List (List Command × Bool) → List Text
unfolding users_of
users key [] = []
users key ((cs, ok) ∷ ps) = users_of key cs ++ users key ps

ranges : List Entry → ℤ → ℤ → List Entry
ranges l (pos start) (pos stop) = drop start (take (suc stop) l)
ranges l (pos start) (negsuc n) = drop start (take (length l - n) l)
ranges l (negsuc n) stop = []

unfoldable pub zrevrange : List (List Command × Bool) → Text → ℤ → ℤ → List Entry
unfolding ranges rank users
zrevrange ps key start stop = ranges (rank (λ u. score key u ps) (users key ps)) start stop

insert-All {ℓ} :
    (P : Entry → Type ℓ) (e : Entry) (l : List Entry) → P e → All P l → All P (insert e l)
unfolding insert
insert-All P e [] h hs = (h, tt)
insert-All P e (f ∷ l) h hs = elim (Bool-cases (leb f.1 e.1)) [
  | inl le ↦ rw le (h, (hs.0, hs.1))
  | inr gt ↦ rw gt (hs.0, insert-All P e l h hs.1)
]

listed-insert :
    (u v : Text) (n : ℕ) (l : List Entry) → listed u (insert (v, n) l) ≡ (same u v || listed u l)
unfolding insert listed
listed-insert u v n [] = refl
listed-insert u v n ((w, m) ∷ l) = let rest = listed-insert u v n l in ground arith

All-weaken :
    (l : List Entry) (n m : ℕ)
    → n ≤ m
    → All (λ (e : Entry). e.1 ≤ n) l
    → All (λ (e : Entry). e.1 ≤ m) l
All-weaken [] n m le h = tt
All-weaken (e ∷ l) n m le h = (omega (arith, le, h.0), All-weaken l n m le h.1)

IsDescending-insert :
    (v : Text) (n : ℕ) (l : List Entry) → IsDescending l → IsDescending (insert (v, n) l)
unfolding insert IsDescending
IsDescending-insert v n [] down = (tt, tt)
IsDescending-insert v n ((w, m) ∷ l) down = elim (Bool-cases (leb m n)) [
  | inl le ↦ (let le' : m ≤ n = ground arith in rw le ((le', All-weaken l m n le' down.0), down))
  | inr gt ↦ rw gt (
    insert-All (λ (e : Entry). e.1 ≤ m) (v, n) l (ground arith) down.0,
    IsDescending-insert v n l down.1,
  )
]

-- An order that the comparison of texts gives either way.
same_sym : (s t : Text) → same s t ≡ false → same t s ≡ false
unfolding same
same_sym [] [] h = absurd (cc)
same_sym [] (c ∷ t) h = refl
same_sym (c ∷ s) [] h = refl
same_sym (c ∷ s) (d ∷ t) h = let rest = same_sym s t in ground arith

IsDistinct-insert :
    (v : Text) (n : ℕ) (l : List Entry)
    → listed v l ≡ false
    → IsDistinct l
    → IsDistinct (insert (v, n) l)
unfolding insert IsDistinct listed
IsDistinct-insert v n [] new once = (refl, tt)
IsDistinct-insert v n ((w, m) ∷ l) new once =
    let other : same w v ≡ false = same_sym v w (ground arith) in
    elim (Bool-cases (leb m n)) [
      | inl le ↦ rw le (new, once)
      | inr gt ↦ rw gt (
        (listed-insert w v n l ∙ rw (other, once.0) refl),
        IsDistinct-insert v n l (ground arith) once.1,
      )
    ]

-- Whether a user is among those of a list.
among : Text → List Text → Bool
unfolding same
among u [] = false
among u (v ∷ vs) = same u v || among u vs

same-listed :
    (u v : Text) (l : List Entry) → same u v ≡ true → listed v l ≡ true → listed u l ≡ true
same-listed u v l e h = ap (λ w. listed w l) (same-eq u v e) ∙ h

listed-rank :
    (value : Text → ℕ) (u : Text) (us : List Text)
    → among u us ≡ true
    → listed u (rank value us) ≡ true
unfolding rank among
listed-rank value u [] h = absurd (cc)
listed-rank value u (v ∷ us) h =
    let later = listed-rank value u us in
    let first = same-listed u v (rank value us) in
    let new = listed-insert u v (value v) (rank value us) in ground arith

IsDistinct-rank : (value : Text → ℕ) (us : List Text) → IsDistinct (rank value us)
unfolding rank IsDistinct
IsDistinct-rank value [] = tt
IsDistinct-rank value (v ∷ us) = elim (Bool-cases (listed v (rank value us))) [
  | inl old ↦ rw old (IsDistinct-rank value us)
  | inr new ↦ rw new (IsDistinct-insert v (value v) (rank value us) new (IsDistinct-rank value us))
]

IsDescending-rank : (value : Text → ℕ) (us : List Text) → IsDescending (rank value us)
unfolding rank IsDescending
IsDescending-rank value [] = tt
IsDescending-rank value (v ∷ us) = elim (Bool-cases (listed v (rank value us))) [
  | inl old ↦ rw old (IsDescending-rank value us)
  | inr new ↦ rw new (IsDescending-insert v (value v) (rank value us) (IsDescending-rank value us))
]

All-rank :
    (value : Text → ℕ) (us : List Text) → All (λ (e : Entry). e.1 ≡ value e.0) (rank value us)
unfolding rank
All-rank value [] = tt
All-rank value (v ∷ us) = elim (Bool-cases (listed v (rank value us))) [
  | inl old ↦ rw old (All-rank value us)
  | inr new ↦ rw new (
      insert-All (λ (e : Entry). e.1 ≡ value e.0) (v, value v) (rank value us) refl
        (All-rank value us))
]

among-append : (u : Text) (us vs : List Text) → among u (us ++ vs) ≡ (among u us || among u vs)
unfolding among
among-append u [] vs = refl
among-append u (w ∷ us) vs = let rest = among-append u us vs in ground arith

among-users_of :
    (key u : Text) (cs : List Command) → 0 < added key u cs → among u (users_of key cs) ≡ true
unfolding among users_of added
among-users_of key u [] h = absurd (omega (arith, h))
among-users_of key u (incr k ∷ cs) h = among-users_of key u cs h
among-users_of key u (zincrby k n v ∷ cs) h =
    let rest = among-users_of key u cs in
    let turned = same_sym u v in
    elim (Bool-cases (same u v)) [ inl e ↦ ground arith | inr e ↦ ground arith ]

among-users :
    (key u : Text) (ps : List (List Command × Bool))
    → 0 < score key u ps
    → among u (users key ps) ≡ true
unfolding users score among
among-users key u [] h = absurd (omega (arith, h))
among-users key u ((cs, ok) ∷ ps) h =
    let here = among-users_of key u cs in
    let rest = among-users key u ps in
    among-append u (users_of key cs) (users key ps) ∙ (ground arith)

take_all : (l : List Entry) → take (length l) l ≡ l
take_all [] = refl
take_all (e ∷ l) = ap (λ t. e ∷ t) (take_all l)

-- From 0 to -1.
ranges_all : (l : List Entry) → ranges l (pos 0) (negsuc 0) ≡ l
unfolding ranges
ranges_all l = let n : length l - 0 ≡ length l = omega arith in ap (λ k. take k l) n ∙ take_all l

zrevrange_all :
    (ps : List (List Command × Bool)) (key : Text)
    → zrevrange ps key (pos 0) (negsuc 0) ≡ rank (λ u. score key u ps) (users key ps)
unfolding zrevrange
zrevrange_all ps key = ranges_all (rank (λ u. score key u ps) (users key ps))

pub zrevrange-IsRanking : IsRanking zrevrange
unfolding zrevrange ranges
zrevrange-IsRanking = record {
  scored =
      λ ps key small. rw (zrevrange_all ps key) (All-rank (λ u. score key u ps) (users key ps));
  distinct =
      λ ps key. rw (zrevrange_all ps key) (IsDistinct-rank (λ u. score key u ps) (users key ps));
  descending =
      λ ps key. rw (zrevrange_all ps key) (IsDescending-rank (λ u. score key u ps) (users key ps));
  whole = λ ps key u some_score.
      rw (zrevrange_all ps key)
        (listed-rank (λ v. score key v ps) u (users key ps) (among-users key u ps some_score));
  range = λ ps key n. rw (zrevrange_all ps key) refl;
}
