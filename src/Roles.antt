-- ===== src/Roles.antt =====
-- Roles and the permissions they grant: src/services/role-admin.service.ts and src/utils/role-key.ts.
pub mod Key
pub mod Store
pub mod Admin
pub mod Shape
pub mod Guards
pub mod Access
pub mod Escalation
pub mod Levels
mod Tests
