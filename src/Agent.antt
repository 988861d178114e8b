-- ===== src/Agent.antt =====
-- The agent's side of internal/agent: the event log that the server keeps for it, the one that the
-- agent keeps, and the way from one to the other.
pub mod Outbox
pub mod Inbox
pub mod Delivery
pub mod Plain
