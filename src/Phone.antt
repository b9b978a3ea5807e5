-- ===== src/Phone.antt =====
-- Phone numbers: src/utils/phone.ts.
pub mod Number
pub mod Canonical
mod Tests
