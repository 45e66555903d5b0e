-- ===== src/Agent.antt =====
-- backend/src/core/agent: the turn of the agent, its state and the gates on its actions.
pub mod State
pub mod Permit
pub mod Code
pub mod Budget
pub mod Loop
pub mod Install
