-- ===== src/Lease.antt =====
-- Job leases: src/services/job-lease.ts.
pub mod Checkpoint
pub mod Exclusion
mod Tests
