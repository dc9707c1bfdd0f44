-- ===== src/Tests/Services.antt =====
-- The services on concrete requests.
use nex_pulse.Base.{
  ◌+◌, List, ◌≡◌, refl, Bool, true, false, ◌&&◌, none, some, [], ◌∷◌, ◌==◌, if◌then◌else◌, arith,
}
use nex_pulse.Text.{codes}
use nex_pulse.Json.{str}
use nex_pulse.Gateway.Ingest.{Event, Answers, Gateway, handle_ingest}
use nex_pulse.Gateway.Accounting.{Counted, handle_ingest-Counted}
use nex_pulse.Aggregator.{
  Outcome, once, Message, read_error, unparsed, parsed, Aggregator, consume_all,
}
use nex_pulse.Aggregator.Leaderboard.{score, credited, leaderboard, score-consume_all}
use nex_pulse.Aggregator.Counters.{failures, IsCounted, consume_all-IsCounted}
use nex_pulse.Base.Slices.{pos}
use nex_pulse.Simulator.{started, panicked, split}
use nex_pulse.Query.Hub.{
  Conn, Hub, new_hub, has, register, broadcast, Unique, Runs, starts, joins, sends,
}
use nex_pulse.Query.Hub.Invariant.{IsSound, Runs-IsSound}
use nex_pulse.Query.Hub.Delivery.{inbox, broadcast-inbox}

abbrev of_seven : Event
of_seven _ = some (str (codes "7"))

-- An event of the user "7" that the limiter's error lets through.
abbrev request : Answers
request = record { bound = some of_seven; allowed = none; marshals = true; writes = true }

abbrev idle : Gateway
idle = record {
  active_connections = 2;
  durations = 5;
  bad_request = 0;
  missing_user_id = 1;
  rate_limit = 0;
  kafka_error = 0;
  rate_limit_hits = 0;
  events_ingested = 4;
  produce_durations = 4;
  pings = 4;
  queue = [];
}

accepts : (handle_ingest request idle).0 ≡ 202
unfolding handle_ingest codes
accepts = refl

handle_ingest-Counted_example :
    Counted idle (handle_ingest request idle).0 (handle_ingest request idle).1
handle_ingest-Counted_example = handle_ingest-Counted request idle

-- A hub with the clients 2 and 1.
abbrev two_clients : Hub
two_clients = register 2 (register 1 new_hub)

two_clients-Runs : Runs (2 ∷ 1 ∷ []) two_clients
two_clients-Runs = joins 2 refl (joins 1 refl starts)

-- The writes to 1 fail.
abbrev only_two : Conn → Bool
only_two c = c == 2

visits-Unique : Unique (1 ∷ 2 ∷ [])
unfolding Unique
visits-Unique = (refl, (refl, tt))

same_clients : (c : Conn) → has c (1 ∷ 2 ∷ []) ≡ has c two_clients.clients
unfolding register new_hub
same_clients c = ground arith

one_stays : (broadcast only_two (codes "m") (1 ∷ 2 ∷ []) two_clients).clients ≡ 2 ∷ []
unfolding broadcast register new_hub
one_stays = refl

Runs-IsSound_example :
    IsSound (2 ∷ 1 ∷ []) (broadcast only_two (codes "m") (1 ∷ 2 ∷ []) two_clients)
Runs-IsSound_example =
    Runs-IsSound
      (sends only_two (codes "m") (1 ∷ 2 ∷ []) visits-Unique same_clients two_clients-Runs)

broadcast-inbox_example :
    (inbox 1 (broadcast only_two (codes "m") (1 ∷ 2 ∷ []) two_clients).effects ≡ (
      if has 1 two_clients.clients
      then (codes "m", only_two 1) ∷ inbox 1 two_clients.effects
      else inbox 1 two_clients.effects))
    × (has 1 (broadcast only_two (codes "m") (1 ∷ 2 ∷ []) two_clients).clients
        ≡ (has 1 two_clients.clients && only_two 1))
broadcast-inbox_example =
    broadcast-inbox two_clients-Runs only_two (codes "m") (1 ∷ 2 ∷ []) visits-Unique same_clients 1

-- An aggregator that has consumed nothing.
abbrev fresh : Aggregator
fresh = record { consumed = 0; processed = 0; redis_errors = 0; durations = 0; pipelines = [] }

-- A pipeline that is not run, and one that returns an error after its ZINCRBY.
abbrev lost : Outcome
lost = record { ok = false; counts = 0; ranks = 0 }

abbrev half_run : Outcome
half_run = record { ok = false; counts = 0; ranks = 1 }

-- A failed read, a message that does not parse, and three events of the user "7", of which one is not
-- ranked.
abbrev mixed : List (Message × Outcome)
mixed =
    (read_error, once)
    ∷ (unparsed, once)
    ∷ (parsed of_seven, once)
    ∷ (parsed of_seven, lost)
    ∷ (parsed of_seven, half_run)
    ∷ []

fresh-IsCounted : IsCounted fresh
unfolding failures
fresh-IsCounted = record { executed = refl; observed = refl; failed = refl; bounded = omega arith }

counts_two : score leaderboard (codes "7") (consume_all mixed fresh).pipelines ≡ 2
unfolding consume_all score codes
counts_two = refl

consume_all-IsCounted_example : IsCounted (consume_all mixed fresh)
consume_all-IsCounted_example = consume_all-IsCounted mixed fresh fresh-IsCounted

score-consume_all_example :
    score leaderboard (codes "7") (consume_all mixed fresh).pipelines
    ≡ score leaderboard (codes "7") fresh.pipelines + credited (codes "7") mixed
score-consume_all_example = score-consume_all (codes "7") mixed fresh

-- 19 events per second over 10 workers are 10.
nineteen : split (pos 19) (pos 10) ≡ started (pos 10) (pos 1)
unfolding split
nineteen = refl

no_workers : split (pos 19) (pos 0) ≡ panicked
unfolding split
no_workers = refl
