-- ===== src/Store/Keys.antt =====
-- The enumerations and idempotency keys that rows are filtered by.
use pine_backend.Base.{ℕ, ◌≡◌, Bool, true, false, Option, none, some, ◌==◌, arith}

-- A key chosen by the client (or a payment's txRef), the key under which an execution is settled,
-- `settle-${tradeId}`, and the key of the buy order that a payment triggers, `${txRef}-BUY`.
pub data Key : Type 0 where
  client : ℕ → Key
  settle : ℕ → Key
  purchase : ℕ → Key

abbrev pub same_key : Key → Key → Bool
same_key (client a) (client b) = a == b
same_key (settle a) (settle b) = a == b
same_key (purchase a) (purchase b) = a == b
same_key _ _ = false

-- a column that may be null against a key
abbrev pub has_key : Key → Option Key → Bool
has_key k none = false
has_key k (some j) = same_key j k

pub data ReservationStatus : Type 0 where
  active consumed released lapsed : ReservationStatus

abbrev pub is_active : ReservationStatus → Bool
is_active active = true
is_active _ = false

pub data TransactionType : Type 0 where
  deposit withdrawal trade_buy trade_sell dividend_credit : TransactionType

abbrev pub is_deposit : TransactionType → Bool
is_deposit deposit = true
is_deposit _ = false

abbrev pub is_withdrawal : TransactionType → Bool
is_withdrawal withdrawal = true
is_withdrawal _ = false

pub data TransactionStatus : Type 0 where
  pending processing completed failed : TransactionStatus

abbrev pub is_pending : TransactionStatus → Bool
is_pending pending = true
is_pending _ = false

-- `status: { in: ['PENDING', 'PROCESSING'] }`
abbrev pub in_flight : TransactionStatus → Bool
in_flight pending = true
in_flight processing = true
in_flight _ = false

pub data LedgerAccount : Type 0 where
  user_wallet platform_cash exchange_settlement platform_fee_revenue : LedgerAccount

abbrev pub is_user_wallet : LedgerAccount → Bool
is_user_wallet user_wallet = true
is_user_wallet _ = false

pub data Direction : Type 0 where
  debit credit : Direction

abbrev pub is_credit : Direction → Bool
is_credit credit = true
is_credit debit = false

-- a nullable reference against an id
abbrev pub refers_to : ℕ → Option ℕ → Bool
refers_to i none = false
refers_to i (some j) = j == i

pub same_key_refl : (k : Key) → same_key k k ≡ true
same_key_refl (client a) = ground arith
same_key_refl (settle a) = ground arith
same_key_refl (purchase a) = ground arith
