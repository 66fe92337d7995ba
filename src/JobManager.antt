-- ===== src/JobManager.antt =====
-- The job manager: modules/job-manager/lib/job_manager.c and its header
-- modules/job-manager/include/job_manager/job_manager.h.
-- `Types` holds the records and enumerations, `Tiers` the two pools and the functions that search
-- and fill them, `Ops` the public entry points; the other modules hold the proofs.
pub mod Types
pub mod Tiers
pub mod Ops
pub mod Search
pub mod Lifecycle
pub mod Calls
pub mod History
pub mod Tally
pub mod Ids
pub mod Identity
pub mod Uniqueness
pub mod Idempotency
pub mod Retirement
pub mod Slots
pub mod Retention
pub mod Answers
pub mod Capacity
pub mod Setters
mod Tests
