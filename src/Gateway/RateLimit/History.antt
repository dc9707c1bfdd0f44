-- ===== src/Gateway/RateLimit/History.antt =====
-- The rate limiter over a history of requests of many users.
use Prim.Native.Nat.{◌^◌}
use mathlib.Core.Path.{subst}
use nex_pulse.Base.{
  ℕ, ◌-◌, ◌≡◌, ◌≢◌, ◌≤◌, ◌<◌, inl, refl, sym, ap, ◌∙◌, Bool, true, false, none, some, List, [], ◌∷◌,
  length, leb, if◌then◌else◌, arith,
}
use nex_pulse.Text.{Text, same}
use nex_pulse.Text.Same.{same-eq}
use nex_pulse.Anomaly.Float64.{float64}
use nex_pulse.Query.Hub.{has}
use nex_pulse.Gateway.SortedSets.{SortedSets, IsWholeSeconds, IsRedis, is_some}
use nex_pulse.Gateway.RateLimit.{rate_key, window_start, pipeline_before, allow_request}
use nex_pulse.Gateway.RateLimit.Window.{Tracks, Tracks-elapse, Tracks-request, requested, counted}
use nex_pulse.Gateway.RateLimit.Times.{recent, distinct-Unique}
use nex_pulse.Gateway.RateLimit.Requests.{
  serve, Request, times_of, latest, IsTimely, has-times_of, rate_key-ne, window_times,
  has-window_times, is_some-if,
}

module _ {R : Type 0} (s : SortedSets R) (laws : IsRedis s) (empty : R)
    (none_yet : (key : Text) (m : ℕ) → s.zscore empty key m ≡ none) (limit window : ℕ)
    (whole : IsWholeSeconds window) where
  -- The start of the window at the last request.
  start : List Request → ℕ
  start [] = 0
  start ((user, now) ∷ requests) = now - window

  start-latest :
      (now : ℕ) (requests : List Request) → latest requests ≤ now → start requests ≤ now - window
  unfolding start latest
  start-latest now [] le = omega arith
  start-latest now ((user, t) ∷ requests) le = omega arith

  -- A request leaves the keys of other users alone.
  frame :
      (key other : Text) (now : ℕ) (r : R)
      → other ≢ key
      → (m : ℕ)
      → (s.zscore (s.expire other now window (pipeline_before s other window now r)) key m
          ≡ s.zscore r key m)
        × (s.deadline (s.expire other now window (pipeline_before s other window now r)) key
            ≡ s.deadline r key)
  unfolding pipeline_before
  frame key other now r ne m =
      let trim = s.zremrangebyscore other 0 (window_start now window) r in
      let a = laws.zremrangebyscore_other other key 0 (window_start now window) r m ne in
      let b = laws.zadd_other other key (float64 now) now trim m ne in
      let c = laws.expire_other other key now window (s.zadd other (float64 now) now trim) m ne in
      (c.0 ∙ b.0 ∙ a.0, c.1 ∙ b.1 ∙ a.1)

  Tracks-other :
      (key other : Text) (ts : List ℕ) (begin now : ℕ) (r : R)
      → other ≢ key
      → Tracks s laws window key ts begin r
      → Tracks s laws window key ts begin
          (s.expire other now window (pipeline_before s other window now r))
  Tracks-other key other ts begin now r ne t = record {
    held = λ m here new. (frame key other now r ne m).0 ∙ t.held m here new;
    only = λ m. rw ((frame key other now r ne m).0) (t.only m);
    due = λ d e. t.due d (sym (frame key other now r ne 0).1 ∙ e);
  }

  -- The set of a user when the store is met by a request at `now`.
  Tracks-met :
      (user : Text) (requests : List Request) (now : ℕ)
      → IsTimely window requests
      → window ≤ now
      → now < 2 ^ 63
      → latest requests ≤ now
      → Tracks s laws window
          (rate_key user)
          (times_of user requests)
          (start requests)
          (serve s empty limit window requests)
      → Tracks s laws window
          (rate_key user)
          (times_of user requests)
          (now - window)
          (s.elapse now (serve s empty limit window requests))
  Tracks-met user requests now timely le small later t =
      Tracks-elapse s laws window (rate_key user) (times_of user requests) (start requests) now
        (serve s empty limit window requests) le small (start-latest now requests later)
        (λ m h. omega (arith, has-times_of window user requests timely m h, later)) t

  -- One more request, of the user or of another.
  Tracks-step :
      (user u : Text) (requests : List Request) (now : ℕ) (r : R) (b : Bool)
      → same u user ≡ b
      → window ≤ now
      → now < 2 ^ 63
      → ((m : ℕ) → has m (times_of user requests) ≡ true → m ≤ now)
      → Tracks s laws window (rate_key user) (times_of user requests) (now - window) r
      → Tracks s laws window
          (rate_key user)
          (if b then now ∷ times_of user requests else times_of user requests)
          (now - window)
          (s.expire (rate_key u) now window (pipeline_before s (rate_key u) window now r))
  Tracks-step user u requests now r true e le small past t =
      subst
        (λ v.
          Tracks s laws window (rate_key user) (now ∷ times_of user requests) (now - window)
            (s.expire (rate_key v) now window (pipeline_before s (rate_key v) window now r)))
        (sym (same-eq u user e))
        (Tracks-request s laws window (rate_key user) (times_of user requests) now r whole le small
          past t)
  Tracks-step user u requests now r false e le small past t =
      Tracks-other (rate_key user) (rate_key u) (times_of user requests) (now - window) now r
        (rate_key-ne u user e) t

  Tracks-serve :
      (user : Text) (requests : List Request)
      → IsTimely window requests
      → Tracks s laws window
          (rate_key user)
          (times_of user requests)
          (start requests)
          (serve s empty limit window requests)
  unfolding serve times_of IsTimely start allow_request
  Tracks-serve user [] timely = record {
    held = λ m here. absurd (cc);
    only = λ m. inl (none_yet (rate_key user) m);
    due = λ d e m here. absurd (cc);
  }
  Tracks-serve user ((u, now) ∷ requests) timely =
      Tracks-step user u requests now (s.elapse now (serve s empty limit window requests))
        (same u user) refl timely.0 timely.1
        (λ m h. omega (arith, has-times_of window user requests timely.3 m h, timely.2))
        (Tracks-met user requests now timely.3 timely.0 timely.1 timely.2
          (Tracks-serve user requests timely.3))

  -- Over a Redis with the documented effects of the commands and without the keys of users at the
  -- start, and for a window of whole seconds, as the client sends expirations: after any requests
  -- of any users, whose clock does not go back, from a window on and below 2^63, and none of
  -- which had an error, a request that has no error is allowed exactly if the different times of
  -- the requests of its user that are newer than the window, as float64 tells them apart, with
  -- the time of this one and those of refused ones, are at most the limit.
  pub verdict-serve :
      (user : Text) (now : ℕ) (requests : List Request)
      → IsTimely window ((user, now) ∷ requests)
      → (allow_request s user limit window now none
          (s.elapse now (serve s empty limit window requests))).0
        ≡ some (leb (length (window_times window now (times_of user requests))) limit)
  unfolding allow_request IsTimely
  verdict-serve user now requests timely =
      let met =
        Tracks-met user requests now timely.3 timely.0 timely.1 timely.2
          (Tracks-serve user requests timely.3) in
      let r = s.elapse now (serve s empty limit window requests) in
      let shown : (m : ℕ)
          → has m (window_times window now (times_of user requests))
            ≡ is_some
                (s.zscore (pipeline_before s (rate_key user) window now r) (rate_key user) m) =
        λ m.
          has-window_times window now m (times_of user requests)
          ∙ is_some-if (counted now (times_of user requests) window m) (float64 m)
          ∙ ap is_some (
              sym (
                requested s laws window (rate_key user) (times_of user requests) now r timely.0
                  timely.1
                  (λ n h. omega (arith, has-times_of window user requests timely.3 n h, timely.2))
                  met m)) in
      ap (λ n. some (leb n limit))
        (laws.zcard-length (rate_key user) (pipeline_before s (rate_key user) window now r)
          (window_times window now (times_of user requests))
          (distinct-Unique (now ∷ recent (now - window) (times_of user requests))) shown)
