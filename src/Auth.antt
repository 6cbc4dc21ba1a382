-- ===== src/Auth.antt =====
-- Who signs in and with what: apps/api/src/modules/auth/auth.service.ts, totp.util.ts and the two
-- strategies.
pub mod Text
pub mod Totp
pub mod Model
pub mod Tokens
pub mod Accounts
pub mod TwoFactor
pub mod Requests
pub mod Steps
pub mod Rotation
pub mod Reset
pub mod Codes
pub mod SignUp
pub mod SignIn
pub mod Tests
