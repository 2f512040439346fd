-- ===== src/Identity.antt =====
-- Who sends and who receives, and the names of messages.
pub mod AgentId
pub mod Scan
pub mod TsId
pub mod MsgId
pub mod RoundTrip
