-- ===== src/Approval.antt =====
-- packages/approval: the approval engine that the HR, asset and backstage services share.
mod Tests
pub mod Types
pub mod StateMachine
pub mod Scope
pub mod Timeout
pub mod PendingLimit
