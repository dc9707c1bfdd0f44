-- ===== src/Tests/Keys.antt =====
-- A store that has the laws of Redis's sorted sets and of the expiration of keys.
use nex_pulse.Base.{
  ℕ, ◌+◌, ◌*◌, ◌/◌, ltb, ◌≡◌, ◌≢◌, refl, sym, ap, ◌∙◌, Bool, true, false, Option, none, some, List,
  [], ◌∷◌, length, ◌==◌, if◌then◌else◌, arith, Bool-cases, inl, inr,
}
use nex_pulse.Text.{Text, same}
use nex_pulse.Text.Same.{same-eq, same_refl}
use nex_pulse.Anomaly.Float64.{Float64}
use nex_pulse.Query.Hub.{has, Unique}
use nex_pulse.Gateway.SortedSets.{SortedSets, IsWholeSeconds, IsRedis, is_some, in_range, is_over}
use nex_pulse.Gateway.RateLimit.Times.{distinct, distinct-Unique, has-distinct, length-within}

-- The members of a set with their scores, and its deadline.
abbrev pub Entry : Type 0
Entry = List (ℕ × Float64) × Option ℕ

abbrev pub Store : Type 0
Store = Text → Entry

abbrev pub set : Text → Entry → Store → Store
set key e r k = if same key k then e else r k

unfoldable pub lookup : ℕ → List (ℕ × Float64) → Option Float64
lookup m [] = none
lookup m ((n, score) ∷ es) = if m == n then some score else lookup m es

-- The entries whose member has a score out of the range in the whole set.
unfoldable pub trim : ℕ → ℕ → List (ℕ × Float64) → List (ℕ × Float64) → List (ℕ × Float64)
unfolding lookup
trim low high all [] = []
trim low high all ((n, score) ∷ es) =
    let rest = trim low high all es in
    if in_range low high (lookup n all) then rest else (n, score) ∷ rest

unfoldable pub members : List (ℕ × Float64) → List ℕ
members [] = []
members ((n, score) ∷ es) = n ∷ members es

-- The whole seconds of a span, at least one.
unfoldable pub sent_span : ℕ → ℕ
sent_span span =
    if ltb span 1_000_000_000 then 1_000_000_000 else span / 1_000_000_000 * 1_000_000_000

sent_span-whole : (span : ℕ) → IsWholeSeconds span → sent_span span ≡ span
unfolding sent_span
sent_span-whole span whole = let some_span = whole.0 in let rest = whole.1 in ground arith

unfoldable pub store : SortedSets Store
unfolding lookup trim members sent_span
store = record {
  zscore = λ r key m. lookup m (r key).0;
  deadline = λ r key. (r key).1;
  zremrangebyscore = λ key low high r. set key (trim low high (r key).0 (r key).0, (r key).1) r;
  zadd = λ key score member r. set key ((member, score) ∷ (r key).0, (r key).1) r;
  zcard = λ key r. length (distinct (members (r key).0));
  expire = λ key now span r. set key ((r key).0, some (now + sent_span span)) r;
  elapse = λ now r key. if is_over (r key).1 now then ([], none) else r key;
}

lookup-trim :
    (low high : ℕ) (all es : List (ℕ × Float64)) (m : ℕ)
    → lookup m (trim low high all es)
      ≡ (if in_range low high (lookup m all) then none else lookup m es)
unfolding lookup trim
lookup-trim low high all [] m = ground arith
lookup-trim low high all ((n, score) ∷ es) m =
    let rest = lookup-trim low high all es m in
    elim (Bool-cases (m == n)) [
      | inl e ↦
          (let e' : m ≡ n = ground arith in
            let e'' = ap (λ k. in_range low high (lookup k all)) e' in ground arith)
      | inr e ↦ ground arith
    ]

has-members : (es : List (ℕ × Float64)) (m : ℕ) → has m (members es) ≡ is_some (lookup m es)
unfolding members lookup is_some
has-members [] m = refl
has-members ((n, score) ∷ es) m = let rest = has-members es m in ground arith

set-same : (key : Text) (e : Entry) (r : Store) → set key e r key ≡ e
set-same key e r = rw (same_refl key) refl

set-other : (key other : Text) (e : Entry) (r : Store) → key ≢ other → set key e r other ≡ r other
set-other key other e r ne = elim (Bool-cases (same key other)) [
  | inl s ↦ absurd (ne (same-eq key other s))
  | inr s ↦ rw s refl
]

gone-lookup :
    (b : Bool) (e : Entry) (m : ℕ)
    → lookup m (if b then ([], none) else e).0 ≡ (if b then none else lookup m e.0)
unfolding lookup
gone-lookup true e m = refl
gone-lookup false e m = refl

gone-deadline : (b : Bool) (e : Entry) → (if b then ([], none) else e).1 ≡ (if b then none else e.1)
gone-deadline true e = refl
gone-deadline false e = refl

length-members :
    (ns ms : List ℕ)
    → Unique ms
    → ((m : ℕ) → has m ns ≡ has m ms)
    → length (distinct ns) ≡ length ms
length-members ns ms u same_members =
    let few =
      length-within (distinct ns) ms (distinct-Unique ns) u
        (λ m h. sym (same_members m) ∙ sym (has-distinct m ns) ∙ h) in
    let many =
      length-within ms (distinct ns) u (distinct-Unique ns)
        (λ m h. has-distinct m ns ∙ same_members m ∙ h) in
    omega arith

pub store-IsRedis : IsRedis store
unfolding store
store-IsRedis = record {
  zscore-zremrangebyscore = λ key low high r m.
      ap (λ (e : Entry). lookup m e.0)
        (set-same key (trim low high (r key).0 (r key).0, (r key).1) r)
      ∙ lookup-trim low high (r key).0 (r key).0 m;
  zscore-zadd = λ key score member r m.
      ap (λ (e : Entry). lookup m e.0) (set-same key ((member, score) ∷ (r key).0, (r key).1) r);
  zscore-expire = λ key now span r m some_span.
      ap (λ (e : Entry). lookup m e.0) (set-same key ((r key).0, some (now + sent_span span)) r);
  deadline-expire = λ key now span r whole.
      ap (λ (e : Entry). e.1) (set-same key ((r key).0, some (now + sent_span span)) r)
      ∙ ap (λ n. some (now + n)) (sent_span-whole span whole);
  zscore-elapse = λ now r key m. gone-lookup (is_over (r key).1 now) (r key) m;
  deadline-elapse = λ now r key. gone-deadline (is_over (r key).1 now) (r key);
  zcard-length = λ key r ms u same_members.
      length-members (members (r key).0) ms u (λ m. has-members (r key).0 m ∙ sym (same_members m));
  zremrangebyscore_other = λ key other low high r m ne. (
    ap (λ (e : Entry). lookup m e.0)
        (set-other key other (trim low high (r key).0 (r key).0, (r key).1) r ne),
    ap (λ (e : Entry). e.1)
        (set-other key other (trim low high (r key).0 (r key).0, (r key).1) r ne),
  );
  zadd_other = λ key other score member r m ne. (
    ap (λ (e : Entry). lookup m e.0)
        (set-other key other ((member, score) ∷ (r key).0, (r key).1) r ne),
    ap (λ (e : Entry). e.1) (set-other key other ((member, score) ∷ (r key).0, (r key).1) r ne),
  );
  expire_other = λ key other now span r m ne. (
    ap (λ (e : Entry). lookup m e.0)
        (set-other key other ((r key).0, some (now + sent_span span)) r ne),
    ap (λ (e : Entry). e.1) (set-other key other ((r key).0, some (now + sent_span span)) r ne),
  );
}

abbrev pub nothing : Store
nothing key = ([], none)

pub nothing_yet : (key : Text) (m : ℕ) → store.zscore nothing key m ≡ none
unfolding store lookup
nothing_yet key m = refl
