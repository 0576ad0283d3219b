-- ===== src/Auth.antt =====
-- The authentication services with a state of their own, src/modules/auth/services: one-time
-- codes, transaction PINs and sessions.
pub mod Otp
pub mod Pin
pub mod Session
mod Tests
