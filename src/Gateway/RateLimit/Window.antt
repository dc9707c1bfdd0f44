-- ===== src/Gateway/RateLimit/Window.antt =====
-- The sorted set of a user against the times of the user's requests.
use Prim.Native.Nat.{◌^◌}
use nex_pulse.Base.{
  ℕ, ◌+◌, ◌-◌, ◌≡◌, ◌≤◌, ◌<◌, ◌⊎◌, inl, inr, refl, sym, ap, ◌∙◌, Bool, true, false, not, ◌&&◌, ◌||◌,
  Option, none, some, List, ◌∷◌, ◌==◌, if◌then◌else◌, arith, Bool-cases,
}
use nex_pulse.Text.{Text}
use nex_pulse.Anomaly.Float64.{float64, exceeds}
use nex_pulse.Anomaly.Monotone.{exceeds-larger, exceeds-smaller}
use nex_pulse.Query.Hub.{has}
use nex_pulse.Gateway.SortedSets.{SortedSets, IsWholeSeconds, IsRedis, is_over}
use nex_pulse.Gateway.RateLimit.{window_start, pipeline_before}

-- Whether a time is counted in a window that starts behind `start`, as float64 tells them apart.
unfoldable pub newer : ℕ → ℕ → Bool
newer start m = exceeds (float64 m) (float64 start)

pub newer-later :
    (start start' m : ℕ)
    → start' < 2 ^ 63
    → m < 2 ^ 63
    → start ≤ start'
    → newer start' m ≡ true
    → newer start m ≡ true
unfolding newer
newer-later start start' m small small' le =
    exceeds-larger m m start start' small' small (omega arith) le

newer-old : (start m : ℕ) → start < 2 ^ 63 → m ≤ start → newer start m ≡ false
unfolding newer
newer-old start m small le = exceeds-smaller m start small le

window_start-sub :
    (now window : ℕ) → window ≤ now → now < 2 ^ 63 → window_start now window ≡ now - window
unfolding window_start
window_start-sub now window le small = omega arith

not_if {ℓ} :
    {A : Type ℓ} (b : Bool) (a : A)
    → (if not b then none else some a) ≡ (if b then some a else none)
not_if true a = refl
not_if false a = refl

if-true {ℓ} : {A : Type ℓ} (b : Bool) (x y : A) → b ≡ true → (if b then x else y) ≡ x
if-true true x y h = refl
if-true false x y h = absurd (cc)

if-false {ℓ} : {A : Type ℓ} (b : Bool) (x y : A) → b ≡ false → (if b then x else y) ≡ y
if-false false x y h = refl
if-false true x y h = absurd (cc)

some-inj : {a b : ℕ} → some a ≡ some b → a ≡ b
some-inj h = cc

-- The time of a request is counted whatever its float64 is.
unfoldable pub counted : ℕ → List ℕ → ℕ → ℕ → Bool
counted now times window m = has m (now ∷ times) && ((m == now) || newer (now - window) m)

added_or_held :
    (m now : ℕ) (b c : Bool)
    → (if m == now then some (float64 now) else (if b && c then some (float64 m) else none))
      ≡ (if (if m == now then true else b) && ((m == now) || c) then some (float64 m) else none)
added_or_held m now b c = elim (Bool-cases (m == now)) [
  | inl e ↦ (let e' : m ≡ now = ground arith in rw e (ap (λ n. some (float64 n)) (sym e')))
  | inr e ↦ rw e refl
]

over-deadline : (o : Option ℕ) (now : ℕ) → is_over o now ≡ true → (d : ℕ) × (o ≡ some d) × (d ≤ now)
over-deadline (some d) now h = (d, refl, ground arith)
over-deadline none now h = absurd (cc)

module _ {R : Type 0} (s : SortedSets R) (laws : IsRedis s) (window : ℕ) where
  -- The sorted set under a key holds exactly times of the list, each with its float64 as its score, and
  -- all of them that are newer than `start`; and it does not expire before they are a window old.
  pub record Tracks (key : Text) (times : List ℕ) (start : ℕ) (r : R) : Type 0 where
    pub held :
        (m : ℕ) → has m times ≡ true → newer start m ≡ true → s.zscore r key m ≡ some (float64 m)
    pub only :
        (m : ℕ)
        → (s.zscore r key m ≡ none) ⊎ ((has m times ≡ true) × (s.zscore r key m ≡ some (float64 m)))
    pub due :
        (deadline : ℕ)
        → s.deadline r key ≡ some deadline
        → (m : ℕ) → has m times ≡ true
        → m + window ≤ deadline

  -- Time passes.
  pub Tracks-elapse :
      (key : Text) (times : List ℕ) (start now : ℕ) (r : R)
      → window ≤ now
      → now < 2 ^ 63
      → start ≤ now - window
      → ((m : ℕ) → has m times ≡ true → m ≤ now)
      → Tracks key times start r
      → Tracks key times (now - window) (s.elapse now r)
  Tracks-elapse key times start now r le small later past t =
      elim (Bool-cases (is_over (s.deadline r key) now)) [
        | inl over ↦
            (let (d, e, gone) = over-deadline (s.deadline r key) now over in
              let empty : (m : ℕ) → s.zscore (s.elapse now r) key m ≡ none = λ m.
                laws.zscore-elapse now r key m
                ∙ ap (λ b. if b then none else s.zscore r key m) over in
              record {
                held = λ m here new.
                    (let old =
                        newer-old (now - window) m (omega arith)
                          (omega (arith, t.due d e m here)) in
                      absurd (cc));
                only = λ m. inl (empty m);
                due = λ d' e' m here.
                    (let none_left =
                        laws.deadline-elapse now r key
                        ∙ ap (λ b. if b then none else s.deadline r key) over in
                      absurd (cc));
              })
        | inr still ↦
            (let kept : (m : ℕ) → s.zscore (s.elapse now r) key m ≡ s.zscore r key m = λ m.
                laws.zscore-elapse now r key m
                ∙ ap (λ b. if b then none else s.zscore r key m) still in
              record {
                held = λ m here new.
                    kept m
                    ∙ t.held m here (
                        newer-later start (now - window) m (omega arith)
                          (omega (arith, past m here)) later new);
                only = λ m. rw (kept m) (t.only m);
                due = λ d e. t.due d (
                    sym (
                      laws.deadline-elapse now r key
                      ∙ ap (λ b. if b then none else s.deadline r key) still)
                    ∙ e);
              })
      ]

  -- The set is trimmed: what it holds is newer.
  trimmed :
      (key : Text) (times : List ℕ) (start : ℕ) (r : R)
      → ((m : ℕ) → has m times ≡ true → m < 2 ^ 63)
      → Tracks key times start r
      → (m : ℕ)
      → s.zscore (s.zremrangebyscore key 0 start r) key m
        ≡ (if has m times && newer start m then some (float64 m) else none)
  unfolding newer
  trimmed key times start r small t m =
      laws.zscore-zremrangebyscore key 0 start r m ∙ elim (t.only m) [
        | inl absent ↦ (let h = t.held m in rw absent (ground arith))
        | inr (here, e) ↦
            (let low = exceeds-smaller 0 m (small m here) (omega arith) in
              rw (e, here, low) (not_if (exceeds (float64 m) (float64 start)) (float64 m)))
      ]

  -- The request of the user itself.
  pub requested :
      (key : Text) (times : List ℕ) (now : ℕ) (r : R)
      → window ≤ now
      → now < 2 ^ 63
      → ((m : ℕ) → has m times ≡ true → m ≤ now)
      → Tracks key times (now - window) r
      → (m : ℕ)
      → s.zscore (pipeline_before s key window now r) key m
        ≡ (if counted now times window m then some (float64 m) else none)
  unfolding pipeline_before counted
  requested key times now r le small past t m =
      let begin = window_start-sub now window le small in
      laws.zscore-zadd key (float64 now) now (s.zremrangebyscore key 0 (window_start now window) r)
        m
      ∙ ap
          (λ n.
            if m == now then some (float64 now) else s.zscore (s.zremrangebyscore key 0 n r) key m)
          begin
      ∙ ap (λ o. if m == now then some (float64 now) else o)
          (trimmed key times (now - window) r (λ n here. omega (arith, past n here)) t m)
      ∙ added_or_held m now (has m times) (newer (now - window) m)

  pub Tracks-request :
      (key : Text) (times : List ℕ) (now : ℕ) (r : R)
      → IsWholeSeconds window
      → window ≤ now
      → now < 2 ^ 63
      → ((m : ℕ) → has m times ≡ true → m ≤ now)
      → Tracks key times (now - window) r
      → Tracks key
          (now ∷ times)
          (now - window)
          (s.expire key now window (pipeline_before s key window now r))
  unfolding counted
  Tracks-request key times now r whole le small past t =
      let after : (m : ℕ)
          → s.zscore (s.expire key now window (pipeline_before s key window now r)) key m
            ≡ (if counted now times window m then some (float64 m) else none) =
        λ m.
          laws.zscore-expire key now window (pipeline_before s key window now r) m whole.0
          ∙ requested key times now r le small past t m in
      record {
        held = λ m here new. after m ∙ if-true (counted now times window m) _ none (ground arith);
        only = λ m. elim (Bool-cases (counted now times window m)) [
          | inl w ↦ inr (ground arith, after m ∙ if-true (counted now times window m) _ none w)
          | inr w ↦ inl (after m ∙ if-false (counted now times window m) (some (float64 m)) _ w)
        ];
        due = λ d e m here.
            (let d' = some-inj (
                sym (laws.deadline-expire key now window (pipeline_before s key window now r) whole)
                ∙ e) in
              let p = past m in ground arith);
      }
