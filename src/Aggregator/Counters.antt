-- ===== src/Aggregator/Counters.antt =====
-- The metrics of services/aggregator/metrics/prometheus.go against the pipelines that were executed.
use nex_pulse.Base.{ℕ, ◌+◌, ◌≡◌, ◌≤◌, Bool, List, [], ◌∷◌, length, if◌then◌else◌, arith}
use nex_pulse.Aggregator.{
  Command, Outcome, Message, read_error, unparsed, parsed, Aggregator, consume, consume_all,
}

unfoldable pub failures : List (List Command × Bool) → ℕ
failures [] = 0
failures ((cs, ok) ∷ ps) = (if ok then 0 else 1) + failures ps

-- One event was processed, and its duration observed, for each pipeline; the errors are the failed
-- pipelines; and no event was processed that was not consumed.
pub record IsCounted (a : Aggregator) : Type 0 where
  pub executed : a.processed ≡ length a.pipelines
  pub observed : a.durations ≡ a.processed
  pub failed : a.redis_errors ≡ failures a.pipelines
  pub bounded : a.processed ≤ a.consumed

consume-IsCounted :
    (message : Message) (o : Outcome) (a : Aggregator)
    → IsCounted a
    → IsCounted (consume message o a)
unfolding consume failures
consume-IsCounted read_error o a c = c
consume-IsCounted unparsed o a c = record {
  executed = c.executed;
  observed = c.observed;
  failed = c.failed;
  bounded = omega (arith, c.bounded);
}
consume-IsCounted (parsed event) o a c = record {
  executed = omega (arith, c.executed);
  observed = omega (arith, c.observed);
  failed = let f = c.failed in ground arith;
  bounded = omega (arith, c.bounded);
}

-- The metrics of the aggregator agree with the pipelines that it executed after any messages, if they
-- did before.
pub consume_all-IsCounted :
    (messages : List (Message × Outcome)) (a : Aggregator)
    → IsCounted a
    → IsCounted (consume_all messages a)
unfolding consume_all
consume_all-IsCounted [] a c = c
consume_all-IsCounted ((message, o) ∷ messages) a c =
    consume_all-IsCounted messages (consume message o a) (consume-IsCounted message o a c)
