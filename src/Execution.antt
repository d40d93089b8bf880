-- ===== src/Execution.antt =====
-- internal/execution: the job model with its state machine, and the index of live jobs.
pub mod Job
pub mod Registry
pub mod Language
pub mod Context
pub mod Scheduler
pub mod Storage
pub mod Validation
pub mod Orchestrator
pub mod Examples
