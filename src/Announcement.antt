-- ===== src/Announcement.antt =====
-- Announcements to investors: src/services/announcement.service.ts.
pub mod Row
pub mod Approved
mod Tests
