-- ===== src/Replay.antt =====
-- The replay files of internal/core/replay, and the recorder that writes them.
pub mod Format
pub mod RoundTrip
pub mod Recorder
pub mod Entries
pub mod Calls
pub mod Recording
pub mod Written
pub mod Recorded
mod Tests
