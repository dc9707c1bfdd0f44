-- ===== src/Tests/Updates.antt =====
-- Alerts on their way to the clients, on concrete inputs.
use Prim.Native.Nat.{◌^◌}
use nex_pulse.Base.{
  ◌+◌, ◌*◌, ◌≡◌, ◌≤◌, refl, Bool, true, false, some, List, [], ◌∷◌, length, ◌==◌, arith,
}
use nex_pulse.Text.{Text, codes}
use nex_pulse.Text.Decimal.{decimal}
use nex_pulse.Anomaly.Float64.{Float64}
use nex_pulse.Anomaly.Publisher.{hundredths_of, fixed_two, payload}
use nex_pulse.Anomaly.Publisher.Message.{read_alert, read_alert-payload}
use nex_pulse.Query.Hub.{
  Conn, Hub, unregister, new_hub, has, register, broadcast, Unique, Runs, starts, joins,
}
use nex_pulse.Query.Hub.Delivery.{inbox}
use nex_pulse.Query.Updates.{
  Next, takes, joined, left, forward, IsOrderly, IsReached, takings, heard, inbox-forward,
}

-- 140.625, half way between two numbers of two places that end in 2 and 3.
abbrev average : Float64
average = record { negative = false; magnitude = 1125; scale = 3 }

ties_to_even : fixed_two average ≡ codes "140.62"
unfolding fixed_two codes decimal
ties_to_even = refl

message_text :
    payload 300 average
    ≡ codes
        "{\"type\": \"anomaly\", \"message\": \"Traffic spiked to 300 req/sec\", \"rps\": 300, \"ema\": 140.62}"
unfolding payload codes decimal
message_text = refl

read_alert-payload_example :
    (read_alert (payload 300 average) ≡ some (300, 300, hundredths_of average))
    × (2 * (hundredths_of average * 2 ^ 3) ≤ 2 * (100 * 1125) + 2 ^ 3)
    × (2 * (100 * 1125) ≤ 2 * (hundredths_of average * 2 ^ 3) + 2 ^ 3)
read_alert-payload_example = read_alert-payload 300 average refl

-- A hub with the clients 2 and 1, of which only 2 can be written to.
abbrev pub clients : Hub
clients = register 2 (register 1 new_hub)

pub clients-Runs : Runs (2 ∷ 1 ∷ []) clients
clients-Runs = joins 2 refl (joins 1 refl starts)

pub two_is_here : has 2 clients.clients ≡ true
unfolding register new_hub
two_is_here = refl

abbrev pub only_two : Conn → Bool
only_two c = c == 2

-- Two messages, between which 1 is lost, 3 joins and goes again.
abbrev goings : List Next
goings = takes only_two (1 ∷ 2 ∷ []) ∷ joined 3 ∷ left 3 ∷ left 1 ∷ takes only_two (2 ∷ []) ∷ []

abbrev both : List Text
both = codes "a" ∷ codes "b" ∷ []

goings-IsOrderly : IsOrderly both goings (2 ∷ 1 ∷ []) clients
unfolding IsOrderly Unique broadcast register unregister new_hub
goings-IsOrderly =
    ((refl, (refl, tt)), (λ c. ground arith), (refl, ((refl, tt), (λ c. ground arith), tt)))

goings-IsReached : IsReached 2 goings
unfolding IsReached
goings-IsReached = (refl, (refl, (refl, (refl, tt))))

goings_enough : takings goings ≡ length both
unfolding takings
goings_enough = refl

inbox-forward_example :
    (inbox 2 (forward both goings clients).effects ≡ heard both (inbox 2 clients.effects))
    × (has 2 (forward both goings clients).clients ≡ true)
inbox-forward_example =
    inbox-forward goings both clients-Runs 2 goings_enough goings-IsOrderly goings-IsReached
      two_is_here
