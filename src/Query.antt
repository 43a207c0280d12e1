-- ===== src/Query.antt =====
-- app/services/query: the guard in front of the query pipeline.
pub mod Guard
