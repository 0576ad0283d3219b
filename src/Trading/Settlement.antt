-- ===== src/Trading/Settlement.antt =====
-- Settlement of an executed trade, src/modules/trading/services/settlement.service.ts, with
-- `createTransactionWithLedger` of src/modules/trading/repositories/trading.repository.ts.
pub mod Effects
pub mod Cash
pub mod Twice
pub mod Holdings
pub mod Retry
use pine_backend.Base.{
  ℕ, suc, ◌+◌, Bool, true, false, not, ◌&&◌, ◌||◌, Option, none, some, List, [], ◌∷◌, ◌++◌, map,
  ◌==◌, if◌then◌else◌, find?, update_where, get_or, Result, ok, err, Tx, pure, throw, gets, modify,
  throw_if, or_throw, ◌>>=◌, ◌>>◌,
}
use pine_backend.Decimals.{Decimals, nought}
use pine_backend.Store.Keys.{
  Key, settle, ReservationStatus, consumed, is_active, TransactionType, trade_buy, trade_sell,
  completed, LedgerAccount, user_wallet, exchange_settlement, platform_fee_revenue, Direction,
  debit, credit,
}
use pine_backend.Store.Errors.{
  Error, record_not_found, unique_violation, wallet_not_found, insufficient_funds, sell_not_covered,
}
use pine_backend.Store.Rows.{
  no_metadata, Db, Wallet, WalletReservation, Transaction, LedgerEntry, Order, Holding,
  SettlementRecord, trade_settled,
}
use pine_backend.Store.Lookups.{
  find_wallet_by_user_id, find_order_by_id, find_user_holding, find_transaction_by_idempotency_key,
  find_reservation_by_order_id, create_trade_audit, update_order_status, same_version, posted_to,
}
use pine_backend.Trading.Lifecycle.{filled, settled, same_status}
use pine_backend.Trading.Fees.{Side, buy, sell}

abbrev pub is_some {ℓ} : {A : Type ℓ} → Option A → Bool
is_some none = false
is_some (some a) = true

abbrev pub map_option {ℓ κ} : {A : Type ℓ} {B : Type κ} → (A → B) → Option A → Option B
map_option f none = none
map_option f (some a) = some (f a)

abbrev pub wallet_direction : Side → Direction
wallet_direction buy = debit
wallet_direction sell = credit

abbrev pub exchange_direction : Side → Direction
exchange_direction buy = credit
exchange_direction sell = debit

module _ ⦃D : Decimals⦄ where
  open D use {
    Decimal, Number, add, sub, mul, div, lt, lte, gte, of_number, store, increment, decrement,
  }

  pub record OrderExecutedEvent : Type 0 where
    pub order_id : ℕ
    pub user_id : ℕ
    pub stock_id : ℕ
    pub side : Side
    pub quantity : Number
    pub price : Number
    pub total_fees : Number
    pub total_cost : Number
    pub trade_id : ℕ

  abbrev pub gross_of : OrderExecutedEvent → Decimal
  gross_of e = mul (of_number e.price) (of_number e.quantity)

  abbrev pub fees_of : OrderExecutedEvent → Decimal
  fees_of e = of_number e.total_fees

  abbrev pub cost_of : OrderExecutedEvent → Decimal
  cost_of e = of_number e.total_cost

  abbrev pub cash_type : Side → TransactionType
  cash_type buy = trade_buy
  cash_type sell = trade_sell

  -- no order, or one whose fills reach its quantity
  abbrev fully_filled : Option Order → Bool
  fully_filled none = true
  fully_filled (some o) = gte o.filled_quantity o.quantity

  abbrev is_hold : ℕ → WalletReservation → Bool
  is_hold order_id r = r.order_id == order_id && is_active r.status

  -- the executed part of a hold is used up, and the rest stays reserved
  abbrev reduce_hold :
      Decimal → Option WalletReservation → List WalletReservation → List WalletReservation
  reduce_hold cost none rs = rs
  reduce_hold cost (some a) rs =
      let remaining = sub a.amount cost in
      update_where (λ (r : WalletReservation). r.id == a.id)
        (λ (r : WalletReservation).
          if lte remaining nought
          then record r { status = consumed }
          else record r { amount = store remaining })
        rs

  pub consume_hold : OrderExecutedEvent → Side → Db → Db
  consume_hold e sell db = db
  consume_hold e buy db = record db {
    reservations =
        if fully_filled (find_order_by_id e.order_id db)
        then update_where (is_hold e.order_id)
            (λ (r : WalletReservation). record r { status = consumed }) db.reservations
        else reduce_hold (cost_of e) (find_reservation_by_order_id e.order_id db) db.reservations;
  }

  -- what the wallet pays or receives
  abbrev pub cash_delta : OrderExecutedEvent → Side → Decimal
  cash_delta e buy = cost_of e
  cash_delta e sell = sub (gross_of e) (fees_of e)

  abbrev pub new_balance : OrderExecutedEvent → Side → Wallet → Decimal
  new_balance e buy w = sub w.balance (cash_delta e buy)
  new_balance e sell w = add w.balance (cash_delta e sell)

  abbrev overdrawn : OrderExecutedEvent → Side → Wallet → Bool
  overdrawn e buy w = lt (new_balance e buy w) nought
  overdrawn e sell w = false

  abbrev pub moved_balance : OrderExecutedEvent → Side → Decimal → Decimal
  moved_balance e buy b = decrement b (cash_delta e buy)
  moved_balance e sell b = increment b (cash_delta e sell)

  pub move_cash : OrderExecutedEvent → Wallet → Tx Error Db (Unit {0})
  move_cash e w = do
    throw_if (overdrawn e e.side w) insufficient_funds
    or_throw (← gets (λ (db : Db). find? (same_version w) db.wallets)) record_not_found
    modify λ (db : Db). record db {
      wallets =
          update_where (same_version w)
            (λ (v : Wallet). record v {
              balance = moved_balance e e.side v.balance;
              version = v.version + 1;
            })
            db.wallets;
    }

  -- the parameters of `createTransactionWithLedger` that its entries take
  pub record Leg : Type 0 where
    pub wallet_id : Option ℕ
    pub account_type : LedgerAccount
    pub direction : Direction
    pub amount : Decimal
    pub balance_after : Decimal

  abbrev pub entry_of : ℕ → Leg → LedgerEntry
  entry_of transaction_id l = record {
    transaction_id = transaction_id;
    wallet_id = l.wallet_id;
    account_type = l.account_type;
    direction = l.direction;
    amount = store l.amount;
    balance_after = store l.balance_after;
  }

  -- a key is unique in its wallet
  pub create_transaction_with_ledger :
      ℕ → TransactionType → Decimal → ℕ → Key → List Leg → Tx Error Db (Unit {0})
  create_transaction_with_ledger wallet_id type amount order_id key legs = do
    taken ← gets (find_transaction_by_idempotency_key wallet_id key)
    throw_if (is_some taken) unique_violation
    modify λ (db : Db). record db {
      transactions =
          db.transactions
          ++ (record {
            id = db.next;
            wallet_id = wallet_id;
            type = type;
            status = completed;
            amount = store amount;
            idempotency_key = some key;
            related_order_id = some order_id;
            processing_fee = none;
            metadata = no_metadata;
          }
              ∷ []);
      ledger = db.ledger ++ map (entry_of db.next) legs;
      next = suc db.next;
    }

  -- weighted-average cost, fees included
  abbrev bought : OrderExecutedEvent → Option Holding → Holding
  bought e held =
      let prev_qty = get_or (map_option (λ (h : Holding). h.quantity) held) nought in
      let prev_avg = get_or (map_option (λ (h : Holding). h.average_cost) held) nought in
      let new_qty = add prev_qty (of_number e.quantity) in
      record {
        user_id = e.user_id;
        stock_id = e.stock_id;
        quantity = store new_qty;
        average_cost = store (div (add (mul prev_qty prev_avg) (cost_of e)) new_qty);
      }

  abbrev pub is_position : OrderExecutedEvent → Holding → Bool
  is_position e h = h.user_id == e.user_id && h.stock_id == e.stock_id

  -- `upsert` on the user and the stock
  abbrev upsert : OrderExecutedEvent → Option Holding → List Holding → List Holding
  upsert e none hs = hs ++ (bought e none ∷ [])
  upsert e (some h) hs = update_where (is_position e) (λ (g : Holding). bought e (some h)) hs

  -- never more shares than the position holds
  abbrev uncovered : OrderExecutedEvent → Option Holding → Bool
  uncovered e none = true
  uncovered e (some h) = lt h.quantity (of_number e.quantity)

  abbrev pub sold : OrderExecutedEvent → Option Holding → Holding → Holding
  sold e held h =
      let prev_qty = get_or (map_option (λ (g : Holding). g.quantity) held) nought in
      record h { quantity = store (sub prev_qty (of_number e.quantity)) }

  pub move_holding : OrderExecutedEvent → Side → Tx Error Db (Unit {0})
  move_holding e buy = do
    held ← gets (find_user_holding e.user_id e.stock_id)
    modify λ (db : Db). record db { holdings = upsert e held db.holdings }
  move_holding e sell = do
    held ← gets (find_user_holding e.user_id e.stock_id)
    throw_if (uncovered e held) sell_not_covered
    modify
        λ (db : Db). record db { holdings = update_where (is_position e) (sold e held) db.holdings }

  abbrev is_filled : Option Order → Bool
  is_filled none = false
  is_filled (some o) = same_status o.status filled

  abbrev of_trade : ℕ → SettlementRecord → Bool
  of_trade trade_id s = s.trade_id == trade_id

  -- the settlement record, the order's status and the audit row
  pub close_out : OrderExecutedEvent → Tx Error Db ℕ
  close_out e = do
    recorded ← gets (λ (db : Db). find? (of_trade e.trade_id) db.settlements)
    throw_if (is_some recorded) unique_violation
    settlement_id ← gets (λ (db : Db). db.next)
    modify λ (db : Db). record db {
      settlements = db.settlements ++ (record { id = db.next; trade_id = e.trade_id } ∷ []);
      next = suc db.next;
    }
    order ← gets (find_order_by_id e.order_id)
    modify λ (db : Db).
        if is_filled order then update_order_status e.order_id settled (λ o. o) db else db
    modify (
        create_trade_audit (record {
          order_id = e.order_id;
          user_id = e.user_id;
          action = trade_settled;
          from_status = some filled;
          to_status = some settled;
        }))
    pure settlement_id

  -- the three entries of a settlement
  abbrev pub legs_of : OrderExecutedEvent → Side → Wallet → List Leg
  legs_of e side w =
      record {
        wallet_id = some w.id;
        account_type = user_wallet;
        direction = wallet_direction side;
        amount = cash_delta e side;
        balance_after = new_balance e side w;
      }
      ∷ record {
        wallet_id = none;
        account_type = exchange_settlement;
        direction = exchange_direction side;
        amount = gross_of e;
        balance_after = nought;
      }
      ∷ record {
        wallet_id = none;
        account_type = platform_fee_revenue;
        direction = credit;
        amount = fees_of e;
        balance_after = nought;
      }
      ∷ []

  unfoldable pub post_settlement : OrderExecutedEvent → Wallet → Tx Error Db ℕ
  unfolding consume_hold move_cash create_transaction_with_ledger move_holding close_out
  post_settlement e w = do
    modify (consume_hold e e.side)
    move_cash e w
    create_transaction_with_ledger w.id (cash_type e.side) (cash_delta e e.side) e.order_id
        (settle e.trade_id) (legs_of e e.side w)
    move_holding e e.side
    close_out e

  -- `settleAtomically`: null where the execution has already been settled
  unfoldable pub settle_atomically : OrderExecutedEvent → Tx Error Db (Option ℕ)
  settle_atomically e = do
    w ← or_throw (← gets (find_wallet_by_user_id e.user_id)) wallet_not_found
    existing ← gets (find_transaction_by_idempotency_key w.id (settle e.trade_id))
    elim existing [
      | some t ↦ pure none
      | none ↦ post_settlement e w >>= λ settlement_id. pure (some settlement_id)
    ]
