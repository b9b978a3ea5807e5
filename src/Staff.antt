-- ===== src/Staff.antt =====
-- Portal staff: src/utils/staff-hierarchy.ts and the writes of src/services/staff-admin.service.ts.
pub mod Hierarchy
pub mod Store
pub mod Admin
pub mod Guards
pub mod Invariant
pub mod Steps
pub mod Escalation
mod Tests
