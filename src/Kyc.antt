-- ===== src/Kyc.antt =====
-- The identity documents of an investor, src/modules/kyc.
pub mod Mrz
pub mod Workflow
mod Tests
