-- ===== src/Gateway/RateLimit/Bound.antt =====
-- How often the rate limiter lets a user pass.
use Prim.Native.Nat.{◌^◌}
use mathlib.Core.Path.{subst}
use nex_pulse.Base.{
  ℕ, ◌-◌, ◌≡◌, ◌≤◌, ◌<◌, refl, sym, ap, ◌∙◌, Bool, true, false, ◌&&◌, Option, none, some, List, [],
  ◌∷◌, length, leb, if◌then◌else◌, arith, and-eq-true, leb→le,
}
use nex_pulse.Text.{Text, same}
use nex_pulse.Text.Same.{same-eq}
use nex_pulse.Query.Hub.{has}
use nex_pulse.Gateway.SortedSets.{SortedSets, IsWholeSeconds, IsRedis}
use nex_pulse.Gateway.RateLimit.Window.{newer-later}
use nex_pulse.Gateway.RateLimit.Times.{
  distinct, recent, distinct-Unique, has-distinct, has-recent, length-within,
}
use nex_pulse.Gateway.RateLimit.Requests.{
  allows, accepted, Request, times_of, latest, IsTimely, has-times_of, window_times,
  has-window_times, still_counted,
}
use nex_pulse.Gateway.RateLimit.History.{verdict-serve}

module _ {R : Type 0} (s : SortedSets R) (laws : IsRedis s) (empty : R)
    (none_yet : (key : Text) (m : ℕ) → s.zscore empty key m ≡ none) (limit window : ℕ)
    (whole : IsWholeSeconds window) where
  accepted-times_of :
      (user : Text) (requests : List Request) (m : ℕ)
      → has m (accepted s empty limit window user requests) ≡ true
      → has m (times_of user requests) ≡ true
  unfolding accepted times_of
  accepted-times_of user [] m h = h
  accepted-times_of user ((u, now) ∷ requests) m h =
      let rest = accepted-times_of user requests m in ground arith

  allows-verdict :
      (user : Text) (now : ℕ) (requests : List Request)
      → IsTimely window ((user, now) ∷ requests)
      → allows s empty limit window user now requests
        ≡ leb (length (window_times window now (times_of user requests))) limit
  unfolding allows
  allows-verdict user now requests timely =
      ap (λ (o : Option Bool). elim o [ some verdict ↦ verdict | none ↦ false ])
        (verdict-serve s laws empty none_yet limit window whole user now requests timely)

  -- What is accepted in a later window is counted in the window of the last request, if that is
  -- accepted.
  recent-accepted :
      (user : Text) (requests : List Request) (t now : ℕ)
      → IsTimely window ((user, t) ∷ requests)
      → t ≤ now
      → now < 2 ^ 63
      → length (distinct (recent (now - window) (t ∷ accepted s empty limit window user requests)))
        ≤ length (window_times window t (times_of user requests))
  unfolding IsTimely
  recent-accepted user requests t now timely later small =
      length-within
        (distinct (recent (now - window) (t ∷ accepted s empty limit window user requests)))
        (window_times window t (times_of user requests))
        (distinct-Unique (recent (now - window) (t ∷ accepted s empty limit window user requests)))
        (distinct-Unique (t ∷ recent (t - window) (times_of user requests)))
        (λ m h.
          (let given =
              sym (
                has-distinct m
                  (recent (now - window) (t ∷ accepted s empty limit window user requests)))
              ∙ h in
            let split =
              has-recent m (now - window) (t ∷ accepted s empty limit window user requests) in
            let held = accepted-times_of user requests m in
            let old = has-times_of window user requests timely.3 m in
            let shift = λ (b : m < 2 ^ 63).
              newer-later (t - window) (now - window) m (omega arith) b (omega arith) in
            has-window_times window t m (times_of user requests)
            ∙ still_counted t window now m (times_of user requests)
                (accepted s empty limit window user requests) held
                (λ a. shift (omega (arith, old (held a), timely.1, timely.2))) (sym split ∙ given)))

  accepted-step :
      (user u : Text) (requests : List Request) (t now : ℕ) (b : Bool)
      → (same u user && allows s empty limit window u t requests) ≡ b
      → IsTimely window ((u, t) ∷ requests)
      → t ≤ now
      → now < 2 ^ 63
      → length (distinct (recent (now - window) (accepted s empty limit window user requests)))
        ≤ limit
      → length (
          distinct (
            recent (now - window) (
              if b
              then t ∷ accepted s empty limit window user requests
              else accepted s empty limit window user requests)))
        ≤ limit
  unfolding IsTimely
  accepted-step user u requests t now false e timely later small before = before
  accepted-step user u requests t now true e timely later small before =
      let (named, allowed) =
        and-eq-true (same u user) (allows s empty limit window u t requests) e in
      let same_user = same-eq u user named in
      let few = allows-verdict u t requests timely in
      subst
        (λ v.
          length (distinct (recent (now - window) (t ∷ accepted s empty limit window v requests)))
          ≤ limit)
        same_user
        (omega (
          arith,
          recent-accepted u requests t now timely later small,
          leb→le (length (window_times window t (times_of u requests))) limit (sym few ∙ allowed),
        ))

  -- Over a Redis with the documented effects of the commands and without the keys of users at the
  -- start, and for a window of whole seconds, as the client sends expirations: after any requests
  -- of any users, whose clock does not go back, from a window on and below 2^63, and none of
  -- which had an error, in every window that ends at the last request or later, a user was
  -- allowed at no more than `limit` different times, as float64 tells the times from the start of
  -- the window.
  pub length-accepted :
      (user : Text) (requests : List Request) (now : ℕ)
      → IsTimely window requests
      → latest requests ≤ now
      → window ≤ now
      → now < 2 ^ 63
      → length (distinct (recent (now - window) (accepted s empty limit window user requests)))
        ≤ limit
  unfolding accepted recent distinct latest IsTimely
  length-accepted user [] now timely later le small = omega arith
  length-accepted user ((u, t) ∷ requests) now timely later le small =
      accepted-step user u requests t now (same u user && allows s empty limit window u t requests)
        refl timely later small
        (length-accepted user requests now timely.3 (omega (arith, timely.2, later)) le small)
