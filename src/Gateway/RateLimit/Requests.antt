-- ===== src/Gateway/RateLimit/Requests.antt =====
-- A history of requests of many users: the times of one user, and those in a window.
use Prim.Native.Nat.{◌^◌}
use nex_pulse.Base.{
  ℕ, ◌-◌, ◌≡◌, ◌≢◌, ◌≤◌, ◌<◌, refl, ap, Bool, true, false, ◌&&◌, none, some, List, [], ◌∷◌,
  if◌then◌else◌, arith,
}
use nex_pulse.Text.{Text, codes, same}
use nex_pulse.Text.Same.{same_refl}
use nex_pulse.Query.Hub.{has}
use nex_pulse.Query.Hub.Connections.{has-put}
use nex_pulse.Gateway.SortedSets.{SortedSets, is_some}
use nex_pulse.Gateway.RateLimit.{rate_key, allow_request}
use nex_pulse.Gateway.RateLimit.Window.{newer, counted}
use nex_pulse.Gateway.RateLimit.Times.{distinct, recent, has-distinct, has-recent}

-- A request of a user at a time, and the requests so far, the last one first.
abbrev pub Request : Type 0
Request = Text × ℕ

unfoldable pub times_of : Text → List Request → List ℕ
unfolding same
times_of user [] = []
times_of user ((u, now) ∷ requests) =
    let rest = times_of user requests in if same u user then now ∷ rest else rest

unfoldable pub latest : List Request → ℕ
latest [] = 0
latest ((u, now) ∷ requests) = now

-- The clock does not go back, and is an int64 that is not below the window.
unfoldable pub IsTimely : ℕ → List Request → Type 0
unfolding latest
IsTimely window [] = Unit
IsTimely window ((u, now) ∷ requests) =
    (window ≤ now) × (now < 2 ^ 63) × (latest requests ≤ now) × IsTimely window requests

pub has-times_of :
    (window : ℕ) (user : Text) (requests : List Request)
    → IsTimely window requests
    → (m : ℕ) → has m (times_of user requests) ≡ true
    → m ≤ latest requests
unfolding times_of IsTimely latest
has-times_of window user [] timely m h = absurd (cc)
has-times_of window user ((u, now) ∷ requests) timely m h =
    let rest = has-times_of window user requests timely.3 m in ground arith

rate_key-inj : (u v : Text) → rate_key u ≡ rate_key v → u ≡ v
unfolding rate_key codes
rate_key-inj u v e = cc

pub rate_key-ne : (u v : Text) → same u v ≡ false → rate_key u ≢ rate_key v
unfolding rate_key
rate_key-ne u v h e =
    let e' = rate_key-inj u v e in let r = same_refl u in let r' = ap (same u) e' in cc

-- The times that the limiter counts at `now`, if those before are `ts`.
abbrev pub window_times : ℕ → ℕ → List ℕ → List ℕ
window_times window now ts = distinct (now ∷ recent (now - window) ts)

pub has-window_times :
    (window now m : ℕ) (ts : List ℕ) → has m (window_times window now ts) ≡ counted now ts window m
unfolding counted recent distinct
has-window_times window now m ts =
    let all = has-distinct m (recent (now - window) ts) in
    let here = has-recent m (now - window) ts in
    let added = has-put m now (distinct (recent (now - window) ts)) in ground arith

pub is_some-if {ℓ} : {A : Type ℓ} (b : Bool) (a : A) → b ≡ is_some (if b then some a else none)
unfolding is_some
is_some-if true a = refl
is_some-if false a = refl

pub still_counted :
    (t window now m : ℕ) (ts acc : List ℕ)
    → (has m acc ≡ true → has m ts ≡ true)
    → (has m acc ≡ true → newer (now - window) m ≡ true → newer (t - window) m ≡ true)
    → (has m (t ∷ acc) && newer (now - window) m) ≡ true
    → counted t ts window m ≡ true
unfolding counted
still_counted t window now m ts acc held shift h = ground arith

module _ {R : Type 0} (s : SortedSets R) (empty : R) (limit window : ℕ) where
  -- The store after the requests, none of which had an error.
  unfoldable pub serve : List Request → R
  serve [] = empty
  serve ((user, now) ∷ requests) =
      (allow_request s user limit window now none (s.elapse now (serve requests))).1

  -- Whether a request is allowed.
  unfoldable pub allows : Text → ℕ → List Request → Bool
  allows user now requests =
      elim ((allow_request s user limit window now none (s.elapse now (serve requests))).0) [
        | some verdict ↦ verdict
        | none ↦ false
      ]

  -- The times at which a user was allowed.
  unfoldable pub accepted : Text → List Request → List ℕ
  unfolding allows
  accepted user [] = []
  accepted user ((u, now) ∷ requests) =
      let rest = accepted user requests in
      if same u user && allows u now requests then now ∷ rest else rest
