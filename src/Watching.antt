-- ===== src/Watching.antt =====
-- From the requests to services/gateway to the detector of services/anomaly: each request that names
-- its user starts a goroutine that pings the endpoint that records an event, sooner or later or never.
use Prim.Native.Nat.{◌^◌}
use mathlib.Core.Path.{subst}
use nex_pulse.Base.{
  ℕ, ◌+◌, ◌-◌, ◌≡◌, ◌<◌, ◌≤◌, refl, sym, ap, ◌∙◌, Bool, true, false, Option, none, some, List, [],
  ◌∷◌, ltb, All, if◌then◌else◌, arith,
}
use nex_pulse.Text.{Text}
use nex_pulse.Gateway.Ingest.{
  Event, Answers, Gateway, as_string, write_keyed, produce_event, after_produce, after_limit,
  after_user, after_bind, leave, handle_ingest,
}
use nex_pulse.Anomaly.Float64.{float64}
use nex_pulse.Anomaly.Detector.{
  Detector, new_detector, record_event, tick, Signal, recorded, ticked, run,
}
use nex_pulse.Anomaly.Endpoint.{record_endpoint}
use nex_pulse.Anomaly.Seconds.{counts}
use nex_pulse.Anomaly.Alerts.{spikes, quiet, IsAlert, run-alerts}

-- A request, or the arrival or the loss of a ping that is on its way, or the tick of the detector.
pub data Moment : Type 0 where
  asked : Answers → Moment
  arrived lost second : Moment

-- The gateway, how many of its pings are on their way, and the detector.
pub record Watched : Type 0 where
  pub gateway : Gateway
  pub on_the_way : ℕ
  pub detector : Detector

-- The pings that are on their way after a request: the handler starts a goroutine for each.
unfoldable pub pinged : Gateway → Gateway → ℕ → ℕ
pinged before after on_the_way = on_the_way + (after.pings - before.pings)

-- A ping is a POST to the endpoint.
unfoldable pub arrive : Watched → Watched
unfolding record_endpoint
arrive w =
    if ltb 0 w.on_the_way
    then record w { on_the_way = w.on_the_way - 1; detector = (record_endpoint true w.detector).1 }
    else w

unfoldable pub watch : List Moment → Watched → Watched
unfolding pinged arrive
watch [] w = w
watch (asked a ∷ moments) w =
    let after = (handle_ingest a w.gateway).1 in
    watch moments (record w { gateway = after; on_the_way = pinged w.gateway after w.on_the_way })
watch (arrived ∷ moments) w = watch moments (arrive w)
watch (lost ∷ moments) w = watch moments (record w { on_the_way = w.on_the_way - 1 })
watch (second ∷ moments) w = watch moments (record w { detector = tick w.detector })

-- No ping is on its way, and the detector is new.
abbrev pub unwatched : Gateway → Watched
unwatched g = record { gateway = g; on_the_way = 0; detector = new_detector }

abbrev pub is_name : Option Text → Bool
is_name none = false
is_name (some []) = false
is_name (some (c ∷ s)) = true

-- Whether a request is JSON and names its user.
unfoldable pub names_user : Option Event → Bool
unfolding as_string
names_user none = false
names_user (some event) = is_name (as_string (event "user_id"))

-- The requests that name their user.
unfoldable pub named : List Moment → ℕ
unfolding names_user
named [] = 0
named (asked a ∷ moments) = (if names_user a.bound then 1 else 0) + named moments
named (_ ∷ moments) = named moments

-- How many pings arrive in each second that ends, where `n` arrived before in the first one, and `m`
-- are on their way.
unfoldable pub arrivals : ℕ → ℕ → List Moment → List ℕ
unfolding names_user
arrivals n m [] = []
arrivals n m (asked a ∷ moments) = arrivals n (if names_user a.bound then m + 1 else m) moments
arrivals n m (arrived ∷ moments) = arrivals (if ltb 0 m then n + 1 else n) (m - 1) moments
arrivals n m (lost ∷ moments) = arrivals n (m - 1) moments
arrivals n m (second ∷ moments) = n ∷ arrivals 0 m moments

unfoldable pub sum : List ℕ → ℕ
sum [] = 0
sum (n ∷ ns) = n + sum ns

unfoldable pub signals_of : ℕ → List Moment → List Signal
unfolding names_user
signals_of m [] = []
signals_of m (asked a ∷ moments) = signals_of (if names_user a.bound then m + 1 else m) moments
signals_of m (arrived ∷ moments) =
    let rest = signals_of (m - 1) moments in if ltb 0 m then recorded ∷ rest else rest
signals_of m (lost ∷ moments) = signals_of (m - 1) moments
signals_of m (second ∷ moments) = ticked ∷ signals_of m moments

pings-write_keyed :
    (user : Option Text) (event : Event) (writes : Bool) (g : Gateway)
    → (after_produce (write_keyed user event writes g)).1.pings ≡ g.pings
unfolding after_produce write_keyed
pings-write_keyed none event writes g = refl
pings-write_keyed (some u) event true g = refl
pings-write_keyed (some u) event false g = refl

pings-produce_event :
    (event : Event) (marshals writes : Bool) (g : Gateway)
    → (after_produce (produce_event event marshals writes g)).1.pings ≡ g.pings
unfolding after_produce produce_event
pings-produce_event event true writes g =
    pings-write_keyed (as_string (event "user_id")) event writes g
pings-produce_event event false writes g = refl

pings-after_limit :
    (allowed : Option Bool) (event : Event) (a : Answers) (g : Gateway)
    → (after_limit allowed event a g).1.pings ≡ g.pings
unfolding after_limit
pings-after_limit (some false) event a g = refl
pings-after_limit (some true) event a g = pings-produce_event event a.marshals a.writes g
pings-after_limit none event a g = pings-produce_event event a.marshals a.writes g

pings-after_user :
    (user : Option Text) (event : Event) (a : Answers) (g : Gateway)
    → (after_user user event a g).1.pings ≡ (if is_name user then g.pings + 1 else g.pings)
unfolding after_user
pings-after_user none event a g = refl
pings-after_user (some []) event a g = refl
pings-after_user (some (c ∷ s)) event a g =
    pings-after_limit a.allowed event a (record g { pings = g.pings + 1 })

pings-after_bind :
    (bound : Option Event) (a : Answers) (g : Gateway)
    → (after_bind bound a g).1.pings ≡ (if names_user bound then g.pings + 1 else g.pings)
unfolding after_bind names_user
pings-after_bind none a g = refl
pings-after_bind (some event) a g = pings-after_user (as_string (event "user_id")) event a g

pings-handle_ingest :
    (a : Answers) (g : Gateway)
    → (handle_ingest a g).1.pings ≡ (if names_user a.bound then g.pings + 1 else g.pings)
unfolding handle_ingest leave
pings-handle_ingest a g =
    pings-after_bind a.bound a (record g { active_connections = g.active_connections + 1 })

pinged-names_user :
    (a : Answers) (g : Gateway) (m : ℕ)
    → pinged g (handle_ingest a g).1 m ≡ (if names_user a.bound then m + 1 else m)
unfolding pinged
pinged-names_user a g m = let p = pings-handle_ingest a g in ground arith

run-step :
    (b : Bool) (signals : List Signal) (d : Detector)
    → run signals (if b then record_event d else d)
      ≡ run (if b then recorded ∷ signals else signals) d
unfolding run
run-step true signals d = refl
run-step false signals d = refl

arrive-detector :
    (w : Watched)
    → (arrive w).detector ≡ (if ltb 0 w.on_the_way then record_event w.detector else w.detector)
unfolding arrive record_endpoint
arrive-detector w = ground arith

arrive-on_the_way : (w : Watched) → (arrive w).on_the_way ≡ w.on_the_way - 1
unfolding arrive
arrive-on_the_way w = ground arith

watch-run :
    (moments : List Moment) (w : Watched)
    → (watch moments w).detector ≡ run (signals_of w.on_the_way moments) w.detector
unfolding watch signals_of run
watch-run [] w = refl
watch-run (asked a ∷ moments) w =
    let after = (handle_ingest a w.gateway).1 in
    watch-run moments
      (record w { gateway = after; on_the_way = pinged w.gateway after w.on_the_way })
    ∙ ap (λ m. run (signals_of m moments) w.detector) (pinged-names_user a w.gateway w.on_the_way)
watch-run (arrived ∷ moments) w =
    watch-run moments (arrive w)
    ∙ ap (λ m. run (signals_of m moments) (arrive w).detector) (arrive-on_the_way w)
    ∙ ap (run (signals_of (w.on_the_way - 1) moments)) (arrive-detector w)
    ∙ run-step (ltb 0 w.on_the_way) (signals_of (w.on_the_way - 1) moments) w.detector
watch-run (lost ∷ moments) w = watch-run moments (record w { on_the_way = w.on_the_way - 1 })
watch-run (second ∷ moments) w = watch-run moments (record w { detector = tick w.detector })

counts-step :
    (b : Bool) (n : ℕ) (signals : List Signal)
    → counts n (if b then recorded ∷ signals else signals) ≡ counts (if b then n + 1 else n) signals
unfolding counts
counts-step true n signals = refl
counts-step false n signals = refl

counts-signals_of :
    (moments : List Moment) (n m : ℕ) → counts n (signals_of m moments) ≡ arrivals n m moments
unfolding counts signals_of arrivals
counts-signals_of [] n m = refl
counts-signals_of (asked a ∷ moments) n m =
    counts-signals_of moments n (if names_user a.bound then m + 1 else m)
counts-signals_of (arrived ∷ moments) n m =
    counts-step (ltb 0 m) n (signals_of (m - 1) moments)
    ∙ counts-signals_of moments (if ltb 0 m then n + 1 else n) (m - 1)
counts-signals_of (lost ∷ moments) n m = counts-signals_of moments n (m - 1)
counts-signals_of (second ∷ moments) n m = ap (λ ns. n ∷ ns) (counts-signals_of moments 0 m)

-- No ping arrives that was not started.
sum-arrivals :
    (moments : List Moment) (n m : ℕ) → sum (arrivals n m moments) ≤ n + m + named moments
unfolding arrivals named sum
sum-arrivals [] n m = omega arith
sum-arrivals (asked a ∷ moments) n m =
    let rest = sum-arrivals moments n (if names_user a.bound then m + 1 else m) in ground arith
sum-arrivals (arrived ∷ moments) n m =
    let rest = sum-arrivals moments (if ltb 0 m then n + 1 else n) (m - 1) in ground arith
sum-arrivals (lost ∷ moments) n m = let rest = sum-arrivals moments n (m - 1) in omega arith
sum-arrivals (second ∷ moments) n m = let rest = sum-arrivals moments 0 m in omega arith

-- In whatever order requests come, their pings arrive or are lost and the seconds end: if in no second
-- 2^63 pings arrive, and in the first one with a ping `first` of them, then the alerts of the detector
-- are the spikes among the seconds behind it, by the numbers of pings that arrive in each; each is of
-- more than 100 pings and more than double the average that it is part of; the detector is that
-- of these arrivals alone; and no more pings arrive than there are requests that name their user,
-- refused by the limiter or not.
pub alerts-watch :
    (moments : List Moment) (g : Gateway) (k first : ℕ) (rates : List ℕ)
    → arrivals 0 0 moments ≡ quiet k (first ∷ rates)
    → 0 < first
    → All (λ n. n < 2 ^ 63) (arrivals 0 0 moments)
    → ((watch moments (unwatched g)).detector.alerts ≡ spikes (float64 first) rates)
      × All IsAlert (watch moments (unwatched g)).detector.alerts
      × ((watch moments (unwatched g)).detector ≡ run (signals_of 0 moments) new_detector)
      × (sum (arrivals 0 0 moments) ≤ named moments)
alerts-watch moments g k first rates seconds some_ping small =
    let whole = watch-run moments (unwatched g) in
    let counted = counts-signals_of moments 0 0 in
    let known =
      run-alerts (signals_of 0 moments) k first rates (counted ∙ seconds) some_ping
        (subst (All (λ n. n < 2 ^ 63)) (sym counted) small) in
    (
      ap (λ (d : Detector). d.alerts) whole ∙ known.1,
      subst (λ (d : Detector). All IsAlert d.alerts) (sym whole) known.2,
      whole,
      omega (arith, sum-arrivals moments 0 0),
    )
