-- ===== src/Trading/Tests.antt =====
-- The theorems on trading at concrete inputs.
mod Settled
mod Placed
mod Charged
mod Submitted
