-- ===== src/Query.antt =====
-- The query service, services/query: the hub of its WebSocket connections, the updates that it
-- broadcasts, and the reading of the leaderboard.
pub mod Hub
pub mod Updates
pub mod Leaderboard
pub mod Serving
