-- ===== src/Payments.antt =====
-- Card payments into a wallet, src/modules/payments/services/card-payment.service.ts, and what the
-- wallet's service does with a payment that the gateway has confirmed.
pub mod Deposits
pub mod Gateway
pub mod Card
pub mod Hosted
pub mod Direct
mod Tests
pub mod Luhn
