-- ===== src/Lib.antt =====
-- NexPulse: a verification library for the tools that build its Grafana dashboard, and for the core
-- of its services.
--
-- The directory infra/grafana/dashboards holds a generator and four scripts that rewrite it.
-- generate_dashboard.py builds the overview dashboard as one dictionary and dumps it as JSON;
-- restructure.py, move_back.py, merge_top.py and populate_map.py read the generator as a list of
-- lines, look for marked lines, and write changed lines back.
--
-- Base, with its children, has Boolean tests, lists, Python's indices and slices, blocks, and the orders
-- in which several sequences interleave.
-- Text models a Python string as the list of its code points: the methods of str in Text.Chars, their
-- laws in Text.Strip, readlines and writelines in Text.Lines, decimal numbers in Text.Decimal,
-- how they are read in Text.Scan.
-- Script has what the scripts share: how a run ends (lines written, exit with a message, exception),
-- the effect on the file, and the loop that looks for a line; Script.Find says what it finds.
-- MergeTop, MoveBack, Restructure and PopulateMap model one script each, with the source's names for
-- the conditions and the steps; their children hold the literals and the proofs.
-- Reorder follows the file through restructure.py and then move_back.py, and once more through
-- restructure.py.
-- Json is the type of the values that are dumped. Dashboard models the generator: the board (the list
-- of panels and y_pos) in Dashboard.Board, the functions create_* in Dashboard.Helpers and
-- Dashboard.Series, the panels that are written out in place in Dashboard.Traffic, Analytics, Health,
-- Vitals and Performance, the sections of create_dashboard in Dashboard.Sections. The proofs about
-- places, ids, queries and colors are in Dashboard.Grid, Layout, Stacking, Numbers, Queries and
-- Thresholds.
-- Gateway.Ingest models the handler of services/gateway/handlers/ingest.go and ProduceEvent of
-- services/gateway/kafka/producer.go as one function from the gateway's metrics and messages to those
-- after the request; Gateway.Accounting has the proofs. Gateway.Concurrent gives the handler as the list of
-- its atomic operations, which those of other requests come between in any order.
-- Gateway.RateLimit models AllowRequest of services/gateway/ratelimit/redis_limiter.go over an interface
-- of Redis's sorted sets, Gateway.SortedSets; its children follow the set of a user through a history
-- of requests, and Gateway.Refusal joins it with the handler.
-- Aggregator models the loop of services/aggregator/main.go: the pipeline of each event and the
-- metrics; its children prove what reaches the leaderboard and that the metrics agree. Flow joins it
-- with the gateway: the messages that the one takes are those that the other reads.
-- Anomaly models services/anomaly/detector/ema.go: Anomaly.Float64 has Go's float64 with its rounding,
-- Anomaly.Detector the counter, the average and the alerts, over any order of events and ticks; Size,
-- Rounding, Monotone and Above have the proofs about the rounding, Seconds, Alerts, Smoothing, Steady
-- and Historic those about the detector. Anomaly.Publisher has the message of an alert, of
-- services/anomaly/alert/publisher.go, and Anomaly.Endpoint the handler of /record in
-- services/anomaly/main.go. Watching follows the pings of the gateway to the detector.
-- Query.Hub models the hub of services/query/ws/hub.go: one function for each case of the select of
-- Run, and the relation Runs of the states that the loop reaches. Its children have the lemmas on
-- the map of clients, the invariant, and what a broadcast delivers. Query.Updates models the loop
-- of services/query/rdb/redis.go that hands the messages of Redis to the hub, and Query.Leaderboard
-- GetLeaderboard with the handler of /leaderboard in services/query/main.go. Flow.Ranking follows
-- the events from the gateway to that answer, Flow.Concurrent those of requests at once over the
-- partitions of the topic, and Flow.Rounds those that meet reads and pipelines that return errors; Alerting
-- follows the requests through the detector to the clients. Query.Serving models what ServeWS sends
-- to the hub for each connection.
-- Simulator models how tools/simulator/main.go splits the rate over the workers, and Simulator.Worker
-- the interval of the ticker of a worker and its events, which the gateway decodes with the
-- strings that were encoded.
-- Tests has runs on concrete inputs and the theorems at such inputs.
--
-- An index that was not found is -1, as in the source, and slices count it from the end. The loop of
-- restructure.py over a range takes as fuel the number of indices in that range, so it never runs out.
-- The number of rounds in which a number is printed is one more than the number, and a number has no
-- more digits than that. Floats are decimal numbers: those of the program have at most two places,
-- and the products with a maximum are exact at its values, 100 and 1000; coordinates are printed as
-- Python prints floats below 10^16.
--
-- The answers of libraries (JSON binding, rate limiter, Kafka, WebSocket writes) are inputs of the
-- models of the services. The gauges and counters are atomic, and no branch reads them: Gateway.Concurrent
-- shows that requests at once leave what they leave one after another, which the other modules follow.
-- The loop of Run is one goroutine, so its cases do not interleave.
-- The pipeline of the rate limiter is taken to run at the time that was read, with no other command
-- between its own, and the clock does not go back. The client sends an expiration in whole seconds, so
-- that the theorems about the limiter are for windows of whole seconds, such as the handler's.
--
-- The writer of the gateway is asynchronous; the messages that it has taken are taken to reach the
-- topic. A message of the topic is read at most once. A pipeline of the aggregator is no transaction:
-- how often each of its commands was run is an input, whether Exec returns an error or not. A ping of
-- the gateway arrives at any time after its request, or never. The channel of Redis is taken to hand
-- on what was published, in order. A score in the leaderboard is a whole number, as a double has it exactly below 2^53.
--
-- A float64 of the services is a finite binary64 number; its operations are not fused, as on amd64,
-- and no value of the detector is large enough to overflow. The bits of a number are counted in
-- at most as many rounds as the number, which Anomaly.Size shows to be enough. The counter of the
-- detector is an int64, given by its bits.
--
-- Not modelled: the text that json.dump prints, the translation of line ends and the encoding when a
-- file is opened, and the messages of scripts that succeed. Of the services: the logs, the
-- random choices and the HTTP client of the simulator, and the wiring of libraries in the main
-- functions.
pub mod Base
pub mod Text
pub mod Script
pub mod MergeTop
pub mod MoveBack
pub mod PopulateMap
pub mod Restructure
pub mod Json
pub mod Dashboard
pub mod Gateway
pub mod Anomaly
pub mod Flow
pub mod Aggregator
pub mod Query
pub mod Alerting
pub mod Watching
pub mod Simulator
pub mod Reorder
pub mod Tests
