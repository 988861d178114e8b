-- ===== src/Protocol.antt =====
-- internal/common/protocol: the binary wire protocol.
pub mod Monad
pub mod Reader
pub mod Writer
pub mod Half
pub mod RoomId
pub mod Uuid
pub mod Composite
pub mod Commands
pub mod Wire
pub mod Packets
pub mod Framing
mod Tests
