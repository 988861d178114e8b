-- ===== src/Server.antt =====
-- The rooms of internal/core/server: their data, their state machine and the handlers that drive it.
pub mod Model
pub mod Ids
pub mod Validate
pub mod Turn
pub mod Hosts
pub mod Lifecycle
pub mod Members
pub mod Dispatch
pub mod Played
pub mod Timers
pub mod Contest
pub mod Rooms
pub mod Moves
mod Tests
