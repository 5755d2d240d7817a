-- ===== src/Auth.antt =====
-- The auth service (services/auth): accounts and friendships in Postgres, and the HTTP handlers; and
-- the tokens that the other services check (shared/jwt, shared/middleware).
pub mod Db
pub mod Schema
pub mod Users
pub mod Friends
pub mod Token
pub mod Guard
pub mod RateLimit
pub mod Handlers
pub mod Service
