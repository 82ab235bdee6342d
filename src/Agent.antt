-- ===== src/Agent.antt =====
-- internal/agent: the process that runs one Bot's work.
pub mod Sink
pub mod Rpc
