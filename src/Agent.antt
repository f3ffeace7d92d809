-- ===== src/Agent.antt =====
-- agent/src/agent: the agent's workflows, its guardrail and the resumption of a paused run.
pub mod Values
pub mod Guardrail
pub mod Resume
pub mod InternalTransfer
mod Tests
