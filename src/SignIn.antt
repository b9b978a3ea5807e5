-- ===== src/SignIn.antt =====
-- Sign-in of portal staff: src/services/staff-auth.service.ts and src/utils/totp.ts.
pub mod Totp
pub mod Store
pub mod Password
pub mod Session
pub mod Factor
pub mod Codes
pub mod Wrong
pub mod Lockout
pub mod Tokens
pub mod Refused
pub mod Steps
pub mod Replay
pub mod Spent
pub mod Once
mod Tests
