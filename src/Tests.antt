-- ===== src/Tests.antt =====
-- Concrete runs, and the theorems at concrete inputs.
mod Host
mod World
mod Match
mod Queue
mod Connect
mod Auth
mod Tokens
mod Tables
mod Routes
mod Services
mod Instances
mod Halls
mod Limits
mod Refused
mod Newcomer
mod Shutdown
mod Consent
