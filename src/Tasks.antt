-- ===== src/Tasks.antt =====
-- packages/tasks: the background task table, its outbox and its leases, and the worker that runs a
-- task (apps/worker).
mod Tests
pub mod Types
pub mod Ops
pub mod Rows
pub mod Finality
pub mod Validity
pub mod Exclusion
pub mod Batch
pub mod Worker
pub mod Scheduler
pub mod Writer
