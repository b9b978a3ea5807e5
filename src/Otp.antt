-- ===== src/Otp.antt =====
-- One-time passwords: src/services/otp.service.ts and the code hashes of
-- src/services/otp-channel.ts, over the rows of `PhoneVerification` in prisma/schema.prisma.
pub mod Store
pub mod Request
pub mod Verify
pub mod Lockout
pub mod Accepts
pub mod Tokens
pub mod Budget
pub mod Rows
pub mod Attempts
pub mod History
mod Tests
