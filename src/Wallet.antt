-- ===== src/Wallet.antt =====
-- The wallet module, src/modules/wallet: balances, holds, deposits and withdrawals.
pub mod Ledger
pub mod Posting
pub mod Written
pub mod Reservations
pub mod Transfers
pub mod Balances
pub mod Tests
