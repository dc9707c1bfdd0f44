-- ===== src/Gateway.antt =====
-- The ingestion gateway, services/gateway: the handler of POST /ingest and the rate limiter.
pub mod Ingest
pub mod Accounting
pub mod SortedSets
pub mod RateLimit
pub mod Refusal
pub mod Concurrent
