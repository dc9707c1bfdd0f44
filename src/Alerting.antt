-- ===== src/Alerting.antt =====
-- From services/gateway and services/anomaly through the channel dashboard_updates to the WebSocket
-- clients of services/query: what a client reads of the alerts.
use Prim.Native.Nat.{◌^◌}
use mathlib.Core.Path.{subst}
use nex_pulse.Base.{
  ℕ, ◌+◌, ◌≡◌, ◌<◌, refl, sym, ap, ◌∙◌, Bool, true, false, Option, some, List, [], ◌∷◌, ◌++◌, map,
  length, append_assoc, append-nil, if◌then◌else◌, All,
}
use nex_pulse.Text.{Text, codes, same}
use nex_pulse.Anomaly.Float64.{Float64, float64}
use nex_pulse.Anomaly.Detector.{new_detector, smooth, is_spike, Signal, run}
use nex_pulse.Anomaly.Seconds.{counts}
use nex_pulse.Anomaly.Alerts.{spikes, quiet, quiet-All, run-alerts}
use nex_pulse.Anomaly.Smoothing.{negative-smooth, negative-float64}
use nex_pulse.Anomaly.Publisher.{hundredths_of, payload, publish_spike_alert}
use nex_pulse.Anomaly.Publisher.Message.{read_alert, read_alert-payload}
use nex_pulse.Query.Hub.{Conn, Hub, has, Runs}
use nex_pulse.Query.Hub.Delivery.{inbox}
use nex_pulse.Gateway.Ingest.{Gateway}
use nex_pulse.Query.Updates.{
  subscribed, Next, forward, IsOrderly, IsReached, takings, heard, inbox-forward,
}

-- What is published after the alerts; `ok n` says whether the publication of the n-th of them succeeds.
unfoldable pub publish_all :
    (ℕ → Bool) → List (ℕ × Float64) → List (Text × Text) → List (Text × Text)
publish_all ok [] published = published
publish_all ok (a ∷ alerts) published =
    publish_all (λ n. ok (n + 1)) alerts (publish_spike_alert (ok 0) a published)

-- The alerts whose publication succeeds.
unfoldable pub delivered : (ℕ → Bool) → List (ℕ × Float64) → List (ℕ × Float64)
delivered ok [] = []
delivered ok (a ∷ alerts) =
    let rest = delivered (λ n. ok (n + 1)) alerts in if ok 0 then a ∷ rest else rest

-- What is to be read of an alert.
abbrev pub news : ℕ × Float64 → Option (ℕ × ℕ × ℕ)
news (rps, ema) = some (rps, rps, hundredths_of ema)

subscribed-append :
    (xs ys : List (Text × Text)) → subscribed (xs ++ ys) ≡ subscribed xs ++ subscribed ys
unfolding subscribed
subscribed-append [] ys = refl
subscribed-append ((channel, message) ∷ xs) ys =
    rw (subscribed-append xs ys)
      (step (same channel (codes "dashboard_updates")) message (subscribed xs) (subscribed ys))
  where
    step :
        (b : Bool) (m : Text) (us vs : List Text)
        → (if b then m ∷ (us ++ vs) else us ++ vs) ≡ (if b then m ∷ us else us) ++ vs
    step true m us vs = refl
    step false m us vs = refl

-- What the alert publishes is what the subscription gets.
publish_spike_alert-map :
    (b : Bool) (a : ℕ × Float64) (rest : List (ℕ × Float64)) (published : List (Text × Text))
    → subscribed (publish_spike_alert b a published) ++ map (λ a. payload a.0 a.1) rest
      ≡ subscribed published ++ map (λ a. payload a.0 a.1) (if b then a ∷ rest else rest)
unfolding publish_spike_alert subscribed same codes
publish_spike_alert-map true (rps, ema) rest published =
    let messages = map (λ (a : ℕ × Float64). payload a.0 a.1) rest in
    ap (λ ms. ms ++ messages)
      (subscribed-append published ((codes "dashboard_updates", payload rps ema) ∷ []))
    ∙ append_assoc (subscribed published) (payload rps ema ∷ []) messages
publish_spike_alert-map false (rps, ema) rest published = refl

publish_all-map :
    (ok : ℕ → Bool) (alerts : List (ℕ × Float64)) (published : List (Text × Text))
    → subscribed (publish_all ok alerts published)
      ≡ subscribed published ++ map (λ a. payload a.0 a.1) (delivered ok alerts)
unfolding publish_all delivered
publish_all-map ok [] published = sym (append-nil (subscribed published))
publish_all-map ok (a ∷ alerts) published =
    publish_all-map (λ n. ok (n + 1)) alerts (publish_spike_alert (ok 0) a published)
    ∙ publish_spike_alert-map (ok 0) a (delivered (λ n. ok (n + 1)) alerts) published

All-if {ℓ κ} :
    {A : Type ℓ} (P : A → Type κ) (b : Bool) (x : A) (l : List A)
    → P x
    → All P l
    → All P (if b then x ∷ l else l)
All-if P true x l hx hl = (hx, hl)
All-if P false x l hx hl = hl

All-delivered {κ} :
    (P : ℕ × Float64 → Type κ) (ok : ℕ → Bool) (alerts : List (ℕ × Float64))
    → All P alerts
    → All P (delivered ok alerts)
unfolding delivered
All-delivered P ok [] _ = tt
All-delivered P ok (a ∷ alerts) (p, ps) =
    All-if P (ok 0) a (delivered (λ n. ok (n + 1)) alerts) p
      (All-delivered P (λ n. ok (n + 1)) alerts ps)

-- The averages in the alerts are not negative.
spikes-positive :
    (e : Float64) (rates : List ℕ)
    → e.negative ≡ false
    → All (λ r. r < 2 ^ 63) rates
    → All (λ (a : ℕ × Float64). a.1.negative ≡ false) (spikes e rates)
unfolding spikes
spikes-positive e [] pos small = tt
spikes-positive e (r ∷ rates) pos small =
    let next = negative-smooth e r pos small.0 in
    All-if (λ (a : ℕ × Float64). a.1.negative ≡ false) (is_spike (smooth e r) r) (r, smooth e r)
      (spikes (smooth e r) rates) next (spikes-positive (smooth e r) rates next small.1)

-- What a client reads in the messages that it got, the last one first.
unfoldable pub readings : List (Text × Bool) → List (Option (ℕ × ℕ × ℕ))
readings [] = []
readings ((message, b) ∷ got) = read_alert message ∷ readings got

-- The news of the alerts, the last one first.
unfoldable pub told : List (ℕ × Float64) → List (Option (ℕ × ℕ × ℕ)) → List (Option (ℕ × ℕ × ℕ))
told [] before = before
told (a ∷ alerts) before = told alerts (news a ∷ before)

readings-heard :
    (alerts : List (ℕ × Float64)) (before : List (Text × Bool))
    → All (λ (a : ℕ × Float64). a.1.negative ≡ false) alerts
    → readings (heard (map (λ (a : ℕ × Float64). payload a.0 a.1) alerts) before)
      ≡ told alerts (readings before)
unfolding readings told heard
readings-heard [] before pos = refl
readings-heard ((rps, ema) ∷ alerts) before pos =
    readings-heard alerts ((payload rps ema, true) ∷ before) pos.1
    ∙ ap (λ (o : Option (ℕ × ℕ × ℕ)). told alerts (o ∷ readings before))
        (read_alert-payload rps ema pos.0).0

-- The alerts of a detector have averages that are not negative.
alerts-positive :
    (signals : List Signal) (k first : ℕ) (rates : List ℕ)
    → counts 0 signals ≡ quiet k (first ∷ rates)
    → 0 < first
    → All (λ n. n < 2 ^ 63) (counts 0 signals)
    → All (λ (a : ℕ × Float64). a.1.negative ≡ false) (run signals new_detector).alerts
alerts-positive signals k first rates seconds some_event small =
    let bounds = quiet-All k first rates (subst (All (λ n. n < 2 ^ 63)) seconds small) in
    subst (All (λ (a : ℕ × Float64). a.1.negative ≡ false))
      (sym (run-alerts signals k first rates seconds some_event small).1)
      (spikes-positive (float64 first) rates (negative-float64 first bounds.0) bounds.1)

-- What a client reads of alerts with averages that are not negative.
readings-publish_all :
    (alerts : List (ℕ × Float64)) (ok : ℕ → Bool) (ns : List Next) {seen : List Conn} {h : Hub}
    (r : Runs seen h) (c : Conn)
    → All (λ (a : ℕ × Float64). a.1.negative ≡ false) alerts
    → takings ns ≡ length (subscribed (publish_all ok alerts []))
    → IsOrderly (subscribed (publish_all ok alerts [])) ns seen h
    → IsReached c ns
    → has c h.clients ≡ true
    → readings (inbox c (forward (subscribed (publish_all ok alerts [])) ns h).effects)
      ≡ told (delivered ok alerts) (readings (inbox c h.effects))
unfolding subscribed
readings-publish_all alerts ok ns {h = h} r c pos enough orderly reached here =
    let before = inbox c h.effects in
    ap readings
      (inbox-forward ns (subscribed (publish_all ok alerts [])) r c enough orderly reached here).0
    ∙ ap (λ channel. readings (heard channel before)) (publish_all-map ok alerts [])
    ∙ readings-heard (delivered ok alerts) before
        (All-delivered (λ (a : ℕ × Float64). a.1.negative ≡ false) ok alerts pos)

-- If no second has 2^63 events or more and there is an event in one that ends, and the channel hands
-- on each message once, in order, and the hub takes them all: then a client of a reachable hub that
-- does not go and to which all writes succeed reads each alert of the detector whose publication
-- succeeds once, in their order, with its rate and the hundredths of its average, behind what it had
-- before.
readings-forward :
    (signals : List Signal) (k first : ℕ) (rates : List ℕ) (ok : ℕ → Bool) (ns : List Next)
    {seen : List Conn} {h : Hub} (r : Runs seen h) (c : Conn)
    → counts 0 signals ≡ quiet k (first ∷ rates)
    → 0 < first
    → All (λ n. n < 2 ^ 63) (counts 0 signals)
    → takings ns ≡ length (subscribed (publish_all ok (run signals new_detector).alerts []))
    → IsOrderly (subscribed (publish_all ok (run signals new_detector).alerts [])) ns seen h
    → IsReached c ns
    → has c h.clients ≡ true
    → readings (
        inbox c
          (forward (subscribed (publish_all ok (run signals new_detector).alerts [])) ns h).effects)
      ≡ told (delivered ok (run signals new_detector).alerts) (readings (inbox c h.effects))
readings-forward signals k first rates ok ns r c seconds some_event small enough orderly =
    readings-publish_all (run signals new_detector).alerts ok ns r c
      (alerts-positive signals k first rates seconds some_event small) enough orderly
