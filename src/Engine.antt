-- ===== src/Engine.antt =====
-- Package engine (services/game/engine/engine.go): one match. The mutex makes every exported method
-- one step, so the concurrent program is a sequence of steps in some order (`Run`).
pub mod State
pub mod Session
pub mod Steps
pub mod Lifecycle
pub mod Run
pub mod Invariant
pub mod Frame
pub mod Verdict
pub mod Phases
pub mod FireRate
pub mod Targets
pub mod Roster
pub mod Broadcast
pub mod Respawn
pub mod Everyone
