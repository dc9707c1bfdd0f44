-- ===== src/Anomaly/Publisher.antt =====
-- services/anomaly/alert/publisher.go: the message of an alert, and its way into the channel.
pub mod Message
use Prim.Native.Nat.{◌^◌}
use nex_pulse.Base.{
  ℕ, ◌+◌, ◌*◌, ◌/◌, ◌%◌, Bool, ◌&&◌, ◌||◌, List, [], ◌∷◌, ◌++◌, ltb, ◌==◌, if◌then◌else◌,
}
use nex_pulse.Text.{Text, codes}
use nex_pulse.Text.Decimal.{decimal}
use nex_pulse.Anomaly.Float64.{Float64}

-- The hundredths of a magnitude, rounded to nearest, ties to even.
unfoldable pub hundredths_of : Float64 → ℕ
hundredths_of x =
    let unit = 2 ^ x.scale in
    let q = 100 * x.magnitude / unit in
    let r = 100 * x.magnitude % unit in
    if ltb unit (2 * r) || (2 * r == unit && q % 2 == 1) then q + 1 else q

-- `%.2f`
unfoldable pub fixed_two : Float64 → Text
unfolding hundredths_of
fixed_two x =
    let k = hundredths_of x in
    let digits = decimal (k / 100) ++ b'.' ∷ (48 + k % 100 / 10) ∷ (48 + k % 10) ∷ [] in
    if x.negative then b'-' ∷ digits else digits

-- The payload of an alert.
unfoldable pub payload : ℕ → Float64 → Text
unfolding fixed_two
payload current_rps ema =
    codes "{\"type\": \"anomaly\", \"message\": \"Traffic spiked to "
    ++ (decimal current_rps
        ++ (codes " req/sec\", \"rps\": "
            ++ (decimal current_rps ++ (codes ", \"ema\": " ++ (fixed_two ema ++ codes "}")))))

-- What is published, each message with its channel, after an alert; `ok` says whether Publish
-- succeeds.
unfoldable pub publish_spike_alert : Bool → ℕ × Float64 → List (Text × Text) → List (Text × Text)
unfolding payload
publish_spike_alert ok (current_rps, ema) published =
    if ok then published ++ (codes "dashboard_updates", payload current_rps ema) ∷ [] else published
