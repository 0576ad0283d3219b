-- ===== src/Trading.antt =====
-- The trading module, src/modules/trading: the order lifecycle, the fees and the trading pipeline.
pub mod Lifecycle
pub mod Fees
pub mod Settlement
pub mod Orders
pub mod Execution
pub mod Validation
pub mod Risk
pub mod Submission
mod Tests
