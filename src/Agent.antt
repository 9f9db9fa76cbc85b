-- ===== src/Agent.antt =====
-- internal/domain/agent: the server's side of the agents.
pub mod Poll
mod Samples
