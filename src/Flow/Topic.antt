-- ===== src/Flow/Topic.antt =====
-- The messages of the topic between services/gateway and services/aggregator, of requests at once and
-- over partitions.
use mathlib.Core.Path.{subst}
use nex_pulse.Base.{◌≡◌, sym, ap, ◌∙◌, List, [], ◌++◌, map, All, arith}
use nex_pulse.Base.Interleaving.{Interleaves, total-Interleaves, All-Interleaves, Interleaves-All}
use nex_pulse.Text.{Text}
use nex_pulse.Gateway.Ingest.{Event, Answers, Gateway}
use nex_pulse.Gateway.Concurrent.{Operation, perform_all, operations}
use nex_pulse.Gateway.Concurrent.Agreement.{messages, queue-perform_all}
use nex_pulse.Flow.{keyed, NamesKey}
use nex_pulse.Flow.Accepted.{
  accepted_count, weight, totals-operations, keyed-messages, keyed-Interleaves,
}
use nex_pulse.Flow.Naming.{Names, Names-operations, NamesKey-messages}

module _ (requests : List Answers) {trace : List Operation} (g : Gateway)
    {parts : List (List (Text × Event))} {read : List (Text × Event)}
    (at_once : Interleaves (map operations requests) trace) (empty : g.queue ≡ [])
    (stored : Interleaves parts (perform_all trace g).queue)
    (consumed : Interleaves parts read) where
  queue-messages : (perform_all trace g).queue ≡ messages trace
  queue-messages = queue-perform_all trace g ∙ ap (λ q. q ++ messages trace) empty

  -- Each message that is read is keyed by the user that its event names.
  pub read-NamesKey : All NamesKey read
  read-NamesKey =
      let named =
        NamesKey-messages trace (All-Interleaves Names at_once (Names-operations requests)) in
      All-Interleaves NamesKey consumed
        (Interleaves-All NamesKey stored (subst (All NamesKey) (sym queue-messages) named))

  -- As many messages of a user are read as events of the user are accepted.
  pub keyed-read : (user : Text) → keyed user read ≡ accepted_count user requests
  keyed-read user = omega (
    arith,
    keyed-Interleaves user stored consumed,
    ap (keyed user) queue-messages,
    keyed-messages user trace,
    total-Interleaves (weight user) at_once,
    totals-operations user requests,
  )
