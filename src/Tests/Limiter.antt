-- ===== src/Tests/Limiter.antt =====
-- The rate limiter over a store, on concrete requests.
use nex_pulse.Base.{
  ◌≡◌, ◌≢◌, ◌≤◌, ◌<◌, ◌↔◌, refl, true, false, none, some, List, [], ◌∷◌, length, leb, arith,
}
use nex_pulse.Text.{codes, same}
use nex_pulse.Anomaly.Float64.{float64, exceeds}
use nex_pulse.Json.{str}
use nex_pulse.Gateway.Ingest.{Event, Gateway, handle_ingest}
use nex_pulse.Gateway.Refusal.{handler_limit, second, handle_ingest-limited}
use nex_pulse.Gateway.RateLimit.{allow_request}
use nex_pulse.Gateway.RateLimit.Times.{distinct, recent}
use nex_pulse.Gateway.RateLimit.Requests.{
  Request, times_of, latest, IsTimely, window_times, serve, accepted,
}
use nex_pulse.Gateway.RateLimit.History.{verdict-serve}
use nex_pulse.Gateway.RateLimit.Bound.{length-accepted}
use nex_pulse.Tests.Keys.{Store, store, lookup, trim, members, store-IsRedis, nothing, nothing_yet}

-- Requests of the users "a" and "b", the last one first: times in seconds.
abbrev earlier : List Request
earlier =
    (codes "a", 2_100_000_000)
    ∷ (codes "b", 2_050_000_000)
    ∷ (codes "a", 2_000_000_000)
    ∷ (codes "a", 1_000_000_000)
    ∷ []

earlier-IsTimely : IsTimely 1_000_000_000 ((codes "a", 2_200_000_000) ∷ earlier)
unfolding IsTimely latest
earlier-IsTimely = ground arith

-- Of a limit of 2, the third request in a second is refused.
refused :
    (allow_request store
      (codes "a")
      2
      1_000_000_000
      2_200_000_000
      none
      (store.elapse 2_200_000_000 (serve store nothing 2 1_000_000_000 earlier))).0
    ≡ some false
unfolding allow_request serve codes same store lookup trim members distinct exceeds float64
refused = refl

verdict-serve_example :
    (allow_request store
      (codes "a")
      2
      1_000_000_000
      2_200_000_000
      none
      (store.elapse 2_200_000_000 (serve store nothing 2 1_000_000_000 earlier))).0
    ≡ some
        (leb (length (window_times 1_000_000_000 2_200_000_000 (times_of (codes "a") earlier))) 2)
verdict-serve_example =
    verdict-serve store store-IsRedis nothing nothing_yet 2 1_000_000_000 (omega arith, refl)
      (codes "a") 2_200_000_000 earlier earlier-IsTimely

length-accepted_example :
    length
      (distinct (recent 1_200_000_000 (accepted store nothing 2 1_000_000_000 (codes "a") earlier)))
    ≤ 2
unfolding IsTimely
length-accepted_example =
    length-accepted store store-IsRedis nothing nothing_yet 2 1_000_000_000 (omega arith, refl)
      (codes "a") earlier 2_200_000_000 earlier-IsTimely.3 earlier-IsTimely.2 earlier-IsTimely.0
      earlier-IsTimely.1

abbrev quiet_gateway : Gateway
quiet_gateway = record {
  active_connections = 0;
  durations = 0;
  bad_request = 0;
  missing_user_id = 0;
  rate_limit = 0;
  kafka_error = 0;
  rate_limit_hits = 0;
  events_ingested = 0;
  produce_durations = 0;
  pings = 0;
  queue = [];
}

abbrev of_a : Event
of_a _ = some (str (codes "a"))

a_named : codes "a" ≢ []
unfolding codes
a_named e = absurd (cc)

handle_ingest-limited_example :
    (((handle_ingest
          (record {
            bound = some of_a;
            allowed =
                (allow_request store (codes "a") handler_limit second 2_200_000_000 none (
                  store.elapse 2_200_000_000 (serve store nothing handler_limit second earlier))).0;
            marshals = true;
            writes = true;
          })
          quiet_gateway).0
        ≡ 429)
      ↔ (handler_limit < length (window_times second 2_200_000_000 (times_of (codes "a") earlier))))
    × ((left : Store)
        → (handle_ingest
            (record {
              bound = some of_a;
              allowed =
                  (allow_request store (codes "a") handler_limit second 2_200_000_000 (some left) (
                    store.elapse 2_200_000_000
                      (serve store nothing handler_limit second earlier))).0;
              marshals = true;
              writes = true;
            })
            quiet_gateway).0
          ≢ 429)
handle_ingest-limited_example =
    handle_ingest-limited store store-IsRedis nothing nothing_yet of_a (codes "a") 2_200_000_000
      earlier true true quiet_gateway refl a_named earlier-IsTimely
