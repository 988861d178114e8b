-- ===== src/Network.antt =====
-- The limits of internal/server/network: connections of an address, and commands of a session.
pub mod ConnLimit
pub mod RateLimit
pub mod Reading
mod Tests
