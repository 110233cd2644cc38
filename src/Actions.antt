-- ===== src/Actions.antt =====
-- The ledger of agent actions (lineagelens-backend/app/services/agent_action_service.py).
pub mod Arguments
pub mod Risk
pub mod Ledger
pub mod Links
mod Tests
