-- ===== src/Tests/Alerting.antt =====
-- From the requests to the messages of a client, on concrete inputs.
use nex_pulse.Base.{
  ℕ, zero, suc, ◌≡◌, refl, Bool, true, false, some, List, [], ◌∷◌, ◌==◌, if◌then◌else◌,
}
use nex_pulse.Text.{Text}
use nex_pulse.Anomaly.Float64.{plus, times, negate, exceeds, float64}
use nex_pulse.Anomaly.Detector.{is_spike, smooth}
use nex_pulse.Anomaly.Alerts.{spikes}
use nex_pulse.Anomaly.Publisher.{hundredths_of}
use nex_pulse.Query.Updates.{subscribed, Next, takes, joined}
use nex_pulse.Watching.{Moment, asked, arrived, second, watch, unwatched}
use nex_pulse.Alerting.{publish_all, delivered, told}
use nex_pulse.Tests.Watching.{event, idle}
use nex_pulse.Tests.Updates.{only_two}

-- Events whose pings arrive in the same second, in front of what follows.
abbrev burst : ℕ → List Moment → List Moment
burst zero moments = second ∷ moments
burst (suc n) moments = asked event ∷ arrived ∷ burst n moments

-- Seconds with one event, with 150, with 400 and with 1200.
abbrev surges : List Moment
surges = burst 1 (burst 150 (burst 400 (burst 1200 [])))

abbrev rates : List ℕ
rates = 150 ∷ 400 ∷ 1200 ∷ []

-- The second alert is lost.
abbrev not_second : ℕ → Bool
not_second n = if n == 1 then false else true

abbrev found : List Text
found = subscribed (publish_all not_second (watch surges (unwatched idle)).detector.alerts [])

-- The client 3 joins before the second message, and 1 cannot be written to.
abbrev comings : List Next
comings = takes only_two (1 ∷ 2 ∷ []) ∷ joined 3 ∷ takes only_two (3 ∷ 2 ∷ []) ∷ []

told_twice :
    told (delivered not_second (spikes (float64 1) rates)) []
    ≡ some (1200, 1200, 32371) ∷ some (150, 150, 3080) ∷ []
unfolding told delivered spikes hundredths_of exceeds float64 times plus negate is_spike smooth
told_twice = refl
