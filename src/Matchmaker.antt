-- ===== src/Matchmaker.antt =====
-- The matchmaker service (services/matchmaker): the queue of waiting players and its HTTP handlers.
pub mod Queue
pub mod Handlers
pub mod Service
