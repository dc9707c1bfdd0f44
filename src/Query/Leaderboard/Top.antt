-- ===== src/Query/Leaderboard/Top.antt =====
-- The answer of /leaderboard as the first ten users by their scores.
use Prim.Native.Nat.{◌^◌}
use nex_pulse.Base.{
  ℕ, zero, suc, ◌+◌, ◌≡◌, ◌≤◌, ◌<◌, refl, ap, ◌∙◌, Bool, true, false, ◌||◌, Option, none, some,
  List, [], ◌∷◌, length, take, All, All-take, All-map, Bool-cases, inl, inr, if◌then◌else◌, arith,
}
use nex_pulse.Base.Slices.{ℤ, pos, negsuc}
use nex_pulse.Text.{Text, same}
use nex_pulse.Text.Same.{same-eq}
use nex_pulse.Aggregator.{Command}
use nex_pulse.Aggregator.Leaderboard.{score, leaderboard}
use nex_pulse.Query.Leaderboard.{Entry, handle_leaderboard}

unfoldable pub listed : Text → List Entry → Bool
unfolding same
listed u [] = false
listed u ((v, n) ∷ l) = same u v || listed u l

-- No user twice.
unfoldable pub IsDistinct : List Entry → Type 0
unfolding listed
IsDistinct [] = Unit
IsDistinct ((v, n) ∷ l) = (listed v l ≡ false) × IsDistinct l

-- The highest score first.
unfoldable pub IsDescending : List Entry → Type 0
IsDescending [] = Unit
IsDescending ((v, n) ∷ l) = All (λ (e : Entry). e.1 ≤ n) l × IsDescending l

-- The first `count` users by the scores that `value` gives: whoever is missing has no score, or the
-- list is full and has no lower score.
pub record IsTop (count : ℕ) (value : Text → ℕ) (top : List Entry) : Type 0 where
  pub bounded : length top ≤ count
  pub distinct : IsDistinct top
  pub descending : IsDescending top
  pub scored : All (λ (e : Entry). e.1 ≡ value e.0) top
  pub full :
      (u : Text)
      → listed u top ≡ false
      → 0 < value u
      → (length top ≡ count) × All (λ (e : Entry). value u ≤ e.1) top

-- What the documentation of Redis says of ZREVRANGE after the pipelines: the whole set, from 0 to -1,
-- has the users with their scores, exact below 2^53 as they are doubles, the highest first, each
-- once; and the range from 0 to an index is its beginning.
pub record IsRanking (zrevrange : List (List Command × Bool) → Text → ℤ → ℤ → List Entry)
    : Type 0 where
  pub scored :
      (ps : List (List Command × Bool)) (key : Text)
      → ((u : Text) → score key u ps < 2 ^ 53)
      → All (λ (e : Entry). e.1 ≡ score key e.0 ps) (zrevrange ps key (pos 0) (negsuc 0))
  pub distinct :
      (ps : List (List Command × Bool)) (key : Text)
      → IsDistinct (zrevrange ps key (pos 0) (negsuc 0))
  pub descending :
      (ps : List (List Command × Bool)) (key : Text)
      → IsDescending (zrevrange ps key (pos 0) (negsuc 0))
  pub whole :
      (ps : List (List Command × Bool)) (key u : Text)
      → 0 < score key u ps
      → listed u (zrevrange ps key (pos 0) (negsuc 0)) ≡ true
  pub range :
      (ps : List (List Command × Bool)) (key : Text) (n : ℕ)
      → zrevrange ps key (pos 0) (pos n) ≡ take (suc n) (zrevrange ps key (pos 0) (negsuc 0))

listed-take : (n : ℕ) (u : Text) (l : List Entry) → listed u l ≡ false → listed u (take n l) ≡ false
unfolding listed
listed-take zero u l h = refl
listed-take (suc n) u [] h = refl
listed-take (suc n) u ((v, m) ∷ l) h = let rest = listed-take n u l in ground arith

IsDistinct-take : (n : ℕ) (l : List Entry) → IsDistinct l → IsDistinct (take n l)
unfolding IsDistinct
IsDistinct-take zero l h = tt
IsDistinct-take (suc n) [] h = tt
IsDistinct-take (suc n) ((v, m) ∷ l) h = (listed-take n v l h.0, IsDistinct-take n l h.1)

IsDescending-take : (n : ℕ) (l : List Entry) → IsDescending l → IsDescending (take n l)
unfolding IsDescending
IsDescending-take zero l h = tt
IsDescending-take (suc n) [] h = tt
IsDescending-take (suc n) ((v, m) ∷ l) h =
    (All-take (λ (e : Entry). e.1 ≤ m) n l h.0, IsDescending-take n l h.1)

length-take_le : (n : ℕ) (l : List Entry) → length (take n l) ≤ n
length-take_le zero l = omega arith
length-take_le (suc n) [] = omega arith
length-take_le (suc n) (e ∷ l) = omega (arith, length-take_le n l)

-- A user of the list has at most a score that bounds those of the list.
value-listed :
    (value : Text → ℕ) (u : Text) (m : ℕ) (l : List Entry)
    → All (λ (e : Entry). e.1 ≡ value e.0) l
    → All (λ (e : Entry). e.1 ≤ m) l
    → listed u l ≡ true
    → value u ≤ m
unfolding listed
value-listed value u m [] scored bound h = absurd (cc)
value-listed value u m ((v, n) ∷ l) scored bound h = elim (Bool-cases (same u v)) [
  | inl e ↦ (let here = ap value (same-eq u v e) in omega (arith, here, scored.0, bound.0))
  | inr e ↦ value-listed value u m l scored.1 bound.1 (ground arith)
]

full-take :
    (n : ℕ) (value : Text → ℕ) (u : Text) (l : List Entry)
    → IsDescending l
    → All (λ (e : Entry). e.1 ≡ value e.0) l
    → listed u l ≡ true
    → listed u (take n l) ≡ false
    → (length (take n l) ≡ n) × All (λ (e : Entry). value u ≤ e.1) (take n l)
unfolding listed IsDescending
full-take zero value u l down scored h out = (refl, tt)
full-take (suc n) value u [] down scored h out = absurd (cc)
full-take (suc n) value u ((v, m) ∷ l) down scored h out =
    let later : listed u l ≡ true = ground arith in
    let rest = full-take n value u l down.1 scored.1 later (ground arith) in
    (ap suc rest.0, (value-listed value u m l scored.1 down.0 later, rest.1))

module _ (zrevrange : List (List Command × Bool) → Text → ℤ → ℤ → List Entry)
    (ranking : IsRanking zrevrange) where
  pub zrevrange-IsTop :
      (n : ℕ) (ps : List (List Command × Bool)) (key : Text) (value : Text → ℕ)
      → ((u : Text) → score key u ps ≡ value u)
      → ((u : Text) → value u < 2 ^ 53)
      → IsTop (suc n) value (zrevrange ps key (pos 0) (pos n))
  zrevrange-IsTop n ps key value same_score small =
      let all = zrevrange ps key (pos 0) (negsuc 0) in
      let down = ranking.descending ps key in
      let right = ranking.scored ps key (λ u. rw (same_score u) (small u)) in
      let scored : All (λ (e : Entry). e.1 ≡ value e.0) all =
        All-map (λ e h. h ∙ same_score e.0) all right in
      rw (ranking.range ps key n) (record {
        bounded = length-take_le (suc n) all;
        distinct = IsDistinct-take (suc n) all (ranking.distinct ps key);
        descending = IsDescending-take (suc n) all down;
        scored = All-take (λ (e : Entry). e.1 ≡ value e.0) (suc n) all scored;
        full = λ u out some_score.
            full-take (suc n) value u all down scored
              (ranking.whole ps key u (rw (same_score u) some_score)) out;
      })

  -- The reading of the set after pipelines, which may fail.
  abbrev pub reading : List (List Command × Bool) → Bool → Text → ℤ → ℤ → Option (List Entry)
  reading ps ok key start stop = if ok then some (zrevrange ps key start stop) else none

  -- Over a Redis with the documented ZREVRANGE and users with scores below 2^53: if the reading
  -- fails, the answer is 500 and the error is counted; else it is 200 with the first ten users by
  -- their scores in what was run of the pipelines.
  pub handle_leaderboard-IsTop :
      (ps : List (List Command × Bool)) (redis_errors : ℕ)
      → ((u : Text) → score leaderboard u ps < 2 ^ 53)
      → (handle_leaderboard (reading ps false) redis_errors ≡ (500, none, redis_errors + 1))
        × (handle_leaderboard (reading ps true) redis_errors
            ≡ (200, some (zrevrange ps leaderboard (pos 0) (pos 9)), redis_errors))
        × IsTop 10 (λ u. score leaderboard u ps) (zrevrange ps leaderboard (pos 0) (pos 9))
  unfolding handle_leaderboard
  handle_leaderboard-IsTop ps redis_errors small =
      (refl, refl, zrevrange-IsTop 9 ps leaderboard (λ u. score leaderboard u ps) (λ u. refl) small)
