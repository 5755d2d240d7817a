-- ===== src/Server.antt =====
-- The game server around the engines: the connections of services/game/server and the matches of
-- services/game/matchmanager.
pub mod Client
pub mod Manager
pub mod Connect
pub mod Hall
pub mod Service
