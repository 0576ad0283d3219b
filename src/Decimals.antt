-- ===== src/Decimals.antt =====
-- The arithmetic of amounts. The program computes with the `Decimal` of decimal.js (through Prisma),
-- with JavaScript numbers, and with NUMERIC(18,4) columns; none of the three is code of the
-- repository, so they are a parameter: the operations as a record, and what is documented of them
-- as a second record of laws.
mod Example
pub use Example.{ten_thousandths, ten_thousandths-IsExact}
pub mod Interface
pub use Interface.{Decimals, IsExact, nought, whole, percent, sum_or_zero, total, Fits}
