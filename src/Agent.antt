-- ===== src/Agent.antt =====
-- The agent: agent/src.
pub mod Decoder
pub mod Server
