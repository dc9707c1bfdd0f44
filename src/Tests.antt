-- ===== src/Tests.antt =====
-- Runs of the models on concrete inputs, and the theorems at inputs that meet their hypotheses.
mod Scripts
mod Reorder
mod Panels
mod Services
mod Concurrent
mod Rounds
mod Updates
mod Serving
mod Watching
mod Traffic
mod Alerting
mod Anomaly
mod Keys
mod Limiter
mod SortedSet
mod Ranking
