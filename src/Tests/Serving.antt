-- ===== src/Tests/Serving.antt =====
-- Two connections that come and go, and a broadcast between.
use nex_pulse.Base.{◌≡◌, refl, Bool, true, false, List, [], ◌∷◌, map, ◌==◌, All, arith}
use nex_pulse.Base.Slices.{pos}
use nex_pulse.Base.Interleaving.{Interleaves, finished, steps}
use nex_pulse.Text.{codes}
use nex_pulse.Query.Hub.{Conn, new_hub, has, register, Unique}
use nex_pulse.Query.Hub.Invariant.{is_closed}
use nex_pulse.Query.Updates.{Next, takes, joined, left, forward, IsOrderly}
use nex_pulse.Query.Serving.{serve_ws, Connection, served, is_ended, broadcasts, met}
use nex_pulse.Query.Serving.Empties.{clients-forward}

abbrev only_two : Conn → Bool
only_two c = c == 2

-- The third upgrade fails.
abbrev connections : List Connection
connections =
    record { upgraded = true; conn = 1; reads = false ∷ [] }
    ∷ record { upgraded = true; conn = 2; reads = true ∷ false ∷ [] }
    ∷ record { upgraded = false; conn = 3; reads = false ∷ [] }
    ∷ []

abbrev visits : List ((Conn → Bool) × List Conn)
visits = (only_two, 1 ∷ 2 ∷ []) ∷ []

abbrev trace : List Next
trace = joined 1 ∷ joined 2 ∷ takes only_two (1 ∷ 2 ∷ []) ∷ left 1 ∷ left 2 ∷ []

trace-Interleaves : Interleaves (broadcasts visits ∷ map served connections) trace
unfolding broadcasts serve_ws
trace-Interleaves =
    steps ((takes only_two (1 ∷ 2 ∷ []) ∷ []) ∷ []) (joined 1) (left 1 ∷ [])
      ((joined 2 ∷ left 2 ∷ []) ∷ [] ∷ [])
      (steps ((takes only_two (1 ∷ 2 ∷ []) ∷ []) ∷ (left 1 ∷ []) ∷ []) (joined 2) (left 2 ∷ [])
        ([] ∷ [])
        (steps [] (takes only_two (1 ∷ 2 ∷ [])) [] ((left 1 ∷ []) ∷ (left 2 ∷ []) ∷ [] ∷ []) (
          steps ([] ∷ []) (left 1) [] ((left 2 ∷ []) ∷ [] ∷ []) (
            steps ([] ∷ [] ∷ []) (left 2) [] ([] ∷ [])
              (finished ([] ∷ [] ∷ [] ∷ [] ∷ []) (refl, (refl, (refl, (refl, tt)))))))))

reads_fail : All (λ (c : Connection). is_ended c.reads ≡ true) connections
unfolding is_ended
reads_fail = (refl, (refl, (refl, tt)))

trace-IsOrderly : IsOrderly (codes "m" ∷ []) trace [] new_hub
unfolding IsOrderly Unique register new_hub
trace-IsOrderly = (refl, (refl, ((refl, (refl, tt)), (λ c. ground arith), tt)))

clients-forward_example :
    ((forward (codes "m" ∷ []) trace new_hub).clients ≡ [])
    × ((forward (codes "m" ∷ []) trace new_hub).active ≡ pos 0)
    × ((c : Conn)
        → is_closed c (forward (codes "m" ∷ []) trace new_hub).effects ≡ has c (met trace []))
clients-forward_example =
    clients-forward connections visits (codes "m" ∷ []) trace-Interleaves reads_fail trace-IsOrderly
