-- ===== src/Store/Lookups.antt =====
-- The queries that several services make, in src/modules/wallet/repositories/wallet.repository.ts and
-- src/modules/trading/repositories/trading.repository.ts.
use pine_backend.Base.{
  ℕ, ◌+◌, Bool, true, false, not, if◌then◌else◌, ◌&&◌, Option, List, ◌==◌, find?, filter, map, ◌++◌,
  [], ◌∷◌, update_where,
}
use pine_backend.Decimals.{Decimals, sum_or_zero}
use pine_backend.Trading.Lifecycle.{OrderLifecycleStatus}
use pine_backend.Store.Keys.{
  Key, has_key, is_active, is_deposit, is_withdrawal, in_flight, is_user_wallet, is_credit,
  refers_to,
}
use pine_backend.Store.Rows.{
  Db, Wallet, WalletReservation, Transaction, LedgerEntry, Order, Stock, Holding, TradeAudit,
}

module _ ⦃D : Decimals⦄ where
  open D use {Decimal, sub}

  abbrev pub find_wallet_by_user_id : ℕ → Db → Option Wallet
  find_wallet_by_user_id user_id db = find? (λ (w : Wallet). w.user_id == user_id) db.wallets

  abbrev pub find_wallet_by_id : ℕ → Db → Option Wallet
  find_wallet_by_id wallet_id db = find? (λ (w : Wallet). w.id == wallet_id) db.wallets

  abbrev pub find_order_by_id : ℕ → Db → Option Order
  find_order_by_id order_id db = find? (λ (o : Order). o.id == order_id) db.orders

  abbrev pub find_stock_by_id : ℕ → Db → Option Stock
  find_stock_by_id stock_id db = find? (λ (s : Stock). s.id == stock_id) db.stocks

  abbrev pub find_user_holding : ℕ → ℕ → Db → Option Holding
  find_user_holding user_id stock_id db =
      find? (λ (h : Holding). h.user_id == user_id && h.stock_id == stock_id) db.holdings

  abbrev pub find_transaction_by_id : ℕ → Db → Option Transaction
  find_transaction_by_id transaction_id db =
      find? (λ (t : Transaction). t.id == transaction_id) db.transactions

  -- unique on the wallet and the key
  abbrev pub find_transaction_by_idempotency_key : ℕ → Key → Db → Option Transaction
  find_transaction_by_idempotency_key wallet_id key db =
      find? (λ (t : Transaction). t.wallet_id == wallet_id && has_key key t.idempotency_key)
        db.transactions

  -- `findReservationByOrderId`
  abbrev pub find_reservation_by_order_id : ℕ → Db → Option WalletReservation
  find_reservation_by_order_id order_id db =
      find? (λ (r : WalletReservation). r.order_id == order_id && is_active r.status)
        db.reservations

  abbrev pub active_amounts : ℕ → List WalletReservation → List Decimal
  active_amounts wallet_id rs =
      map (λ (r : WalletReservation). r.amount)
        (filter (λ (r : WalletReservation). r.wallet_id == wallet_id && is_active r.status) rs)

  unfoldable pub sum_active_reservations : ℕ → Db → Decimal
  sum_active_reservations wallet_id db = sum_or_zero (active_amounts wallet_id db.reservations)

  abbrev pub withdrawal_amounts : ℕ → List Transaction → List Decimal
  withdrawal_amounts wallet_id ts =
      map (λ (t : Transaction). t.amount)
        (filter
          (λ (t : Transaction).
            t.wallet_id == wallet_id && is_withdrawal t.type && in_flight t.status)
          ts)

  abbrev pub deposit_amounts : ℕ → List Transaction → List Decimal
  deposit_amounts wallet_id ts =
      map (λ (t : Transaction). t.amount)
        (filter
          (λ (t : Transaction). t.wallet_id == wallet_id && is_deposit t.type && in_flight t.status)
          ts)

  unfoldable pub sum_pending_withdrawals : ℕ → Db → Decimal
  sum_pending_withdrawals wallet_id db = sum_or_zero (withdrawal_amounts wallet_id db.transactions)

  unfoldable pub sum_pending_deposits : ℕ → Db → Decimal
  sum_pending_deposits wallet_id db = sum_or_zero (deposit_amounts wallet_id db.transactions)

  abbrev pub is_wallet_entry : ℕ → Bool → LedgerEntry → Bool
  is_wallet_entry wallet_id credits e =
      refers_to wallet_id e.wallet_id
      && is_user_wallet e.account_type
      && (if credits then is_credit e.direction else not (is_credit e.direction))

  abbrev pub entry_amounts : ℕ → Bool → List LedgerEntry → List Decimal
  entry_amounts wallet_id credits es =
      map (λ (e : LedgerEntry). e.amount) (filter (is_wallet_entry wallet_id credits) es)

  -- credits less debits on the wallet's account
  unfoldable pub sum_ledger_balance : ℕ → Db → Decimal
  sum_ledger_balance wallet_id db =
      sub (sum_or_zero (entry_amounts wallet_id true db.ledger))
        (sum_or_zero (entry_amounts wallet_id false db.ledger))

  -- `createTradeAudit`
  abbrev pub create_trade_audit : TradeAudit → Db → Db
  create_trade_audit a db = record db { audits = db.audits ++ (a ∷ []) }

  -- `updateOrderStatus`: the status, and the extra columns by a function of the row
  abbrev pub update_order_status : ℕ → OrderLifecycleStatus → (Order → Order) → Db → Db
  update_order_status order_id status extra db = record db {
    orders =
        update_where (λ (o : Order). o.id == order_id)
          (λ (o : Order). let o' = extra o in record o' { status = status }) db.orders;
  }

  -- `where: { id, version }`, and `balance: …, version: { increment: 1 }`
  abbrev pub same_version : Wallet → Wallet → Bool
  same_version w v = v.id == w.id && v.version == w.version

  abbrev pub posted_to : (Decimal → Decimal) → Wallet → Wallet
  posted_to f v = record v { balance = f v.balance; version = v.version + 1 }
