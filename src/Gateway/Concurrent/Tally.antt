-- ===== src/Gateway/Concurrent/Tally.antt =====
-- What operations add up to in the counters of the gateway.
use nex_pulse.Base.{ℕ, ◌+◌, ◌≡◌, List, [], ◌∷◌, arith}
use nex_pulse.Gateway.Ingest.{Gateway}
use nex_pulse.Base.Interleaving.{total}
use nex_pulse.Gateway.Concurrent.{Operation, perform, perform_all}

module _ (weight : Operation → ℕ) where
  -- A counter that each operation moves up by its weight.
  pub counter-perform_all :
      (counter : Gateway → ℕ)
      → ((o : Operation) (g : Gateway) → counter (perform o g) ≡ counter g + weight o)
      → (os : List Operation) (g : Gateway)
      → counter (perform_all os g) ≡ counter g + total weight os
  unfolding perform_all total
  counter-perform_all counter step [] g = omega arith
  counter-perform_all counter step (o ∷ os) g =
      omega (arith, counter-perform_all counter step os (perform o g), step o g)
