-- ===== src/World.antt =====
-- Package world (services/game/world): players, bullets, items and the zone. The children define;
-- the modules below them prove.
pub mod Constants
pub mod Player
pub mod Bullet
pub mod Item
pub mod Zone
