-- ===== src/Cash.antt =====
-- Operations of the services that touch the cash tables, as one step relation over databases:
-- settlements (src/modules/trading/services/settlement.service.ts), deposits and withdrawals, from the
-- row that opens one to its end, within a wallet that is there (src/modules/wallet/services/wallet.service.ts),
-- holds placed, consumed, released and expired (reservation.service.ts beside it), dividends, splits and bonus
-- issues (src/modules/dividends/services/distribution-engine.service.ts) and executions
-- (src/modules/trading/services/execution-engine.service.ts). Creating a wallet is not a step.
pub mod Refinement
mod Tests
use pine_backend.Base.{ℕ, Bool, ◌≡◌, Option, some, Result, ok, ℤ, pos, ◌+ℤ◌, ◌≤ℤ◌, ◌≢◌}
use pine_backend.Decimals.{Decimals, IsExact, Fits}
use pine_backend.Store.Keys.{Key, ReservationStatus, TransactionStatus}
use pine_backend.Store.Errors.{Error}
use pine_backend.Store.Rows.{Db, Wallet, Transaction, Holding, Dividend, Metadata}
use pine_backend.Store.Lookups.{find_wallet_by_user_id, find_wallet_by_id, find_transaction_by_id}
use pine_backend.Trading.Fees.{ResolvedFeePolicy}
use pine_backend.Trading.Settlement.{OrderExecutedEvent, settle_atomically}
use pine_backend.Trading.Settlement.Cash.{IsSettleable}
use pine_backend.Trading.Execution.{BrokerOrderSubmission, BrokerFillResult, Outcome, execute}
use pine_backend.Wallet.Reservations.{reserve_funds, end_hold, expire_stale_reservations}
use pine_backend.Wallet.Transfers.{
  process_deposit, process_withdrawal, reject_withdrawal, deposit_into, withdraw_from,
  mark_deposit_failed,
}
use pine_backend.Wallet.Transfers.Cash.{IsCreditable, IsDebitable}
use pine_backend.Dividends.{apply_stock_split, distribute_bonus_shares, pay_holder, net_of}
use pine_backend.Dividends.Credit.{IsPayable}

-- The specification: accounts by wallet, of which a step moves at most one, and never below zero.
infix 40 ◌⇒◌
pub data ◌⇒◌ : (ℕ → ℤ) → (ℕ → ℤ) → Type 0 where
  kept : {m m' : ℕ → ℤ} → ((j : ℕ) → m' j ≡ m j) → m ⇒ m'
  moved :
      {m m' : ℕ → ℤ} (i : ℕ) (a : ℤ)
      → m' i ≡ m i +ℤ a
      → pos 0 ≤ℤ m' i
      → ((j : ℕ) → j ≢ i → m' j ≡ m j)
      → m ⇒ m'

module _ ⦃D : Decimals⦄ where
  open D use {Decimal, Number}

  -- One operation that has returned.
  infix 40 ◌⟶◌
  pub data ◌⟶◌ : Db → Db → Type 0 where
    settled :
        {db db' : Db} (e : OrderExecutedEvent) (id : ℕ)
        → settle_atomically e db ≡ ok (some id, db')
        → db ⟶ db'
    deposited : {db db' : Db} (id : ℕ) → process_deposit id db ≡ ok (tt, db') → db ⟶ db'
    withdrawn : {db db' : Db} (id : ℕ) → process_withdrawal id db ≡ ok (tt, db') → db ⟶ db'
    refused : {db db' : Db} (id : ℕ) → reject_withdrawal id db ≡ ok (tt, db') → db ⟶ db'
    reserved :
        {db db' : Db} (user_id order_id : ℕ) (amount : Number) (minutes : Option ℕ) (now id : ℕ)
        → reserve_funds user_id order_id amount minutes now db ≡ ok (id, db')
        → db ⟶ db'
    paid :
        {db db' : Db} (d : Dividend) (h : Holding) (r : Result Error (Unit {0}))
        → pay_holder d h db ≡ (r, db')
        → db ⟶ db'
    split : {db db' : Db} (action_id : ℕ) → apply_stock_split action_id db ≡ (ok tt, db') → db ⟶ db'
    issued :
        {db db' : Db} (action_id : ℕ) (total : Decimal)
        → distribute_bonus_shares action_id db ≡ (ok total, db')
        → db ⟶ db'
    executed :
        {db db' : Db} (adapter : BrokerOrderSubmission → BrokerFillResult)
        (policy : ResolvedFeePolicy) (platform_fee : Decimal → Decimal) (id : ℕ) (price : Decimal)
        (out : Outcome)
        → execute adapter policy platform_fee id price db ≡ ok (out, db')
        → db ⟶ db'
    hold_ended :
        {db : Db} (status : ReservationStatus) (order_id : ℕ) → db ⟶ end_hold status order_id db
    swept : {db : Db} (now : ℕ) → db ⟶ expire_stale_reservations now db
    deposit_opened :
        {db db' : Db} (allowed : Bool) (policy : ResolvedFeePolicy) (wallet_id : ℕ)
        (amount : Number) (key : Option Key) (meta : Metadata) (r : ℕ × TransactionStatus)
        → deposit_into allowed policy wallet_id amount key meta db ≡ ok (r, db')
        → db ⟶ db'
    withdrawal_opened :
        {db db' : Db} (wallet_id : ℕ) (amount : Number) (key : Option Key)
        (r : ℕ × TransactionStatus)
        → withdraw_from wallet_id amount key db ≡ ok (r, db')
        → db ⟶ db'
    deposit_failed : {db : Db} (key : Key) → db ⟶ mark_deposit_failed key db

  -- The amounts of a step are in whole columns and within the precision of a balance; those of a
  -- deposit and of a dividend are not negative, nor is what a sale leaves after its fees.
  pub IsInRange : IsExact → {db db' : Db} → db ⟶ db' → Type 0
  IsInRange E {db = db} (settled e id ran) =
      (w : Wallet) → find_wallet_by_user_id e.user_id db ≡ some w → IsSettleable E e w
  IsInRange E {db = db} (deposited id ran) =
      (t : Transaction) (w : Wallet)
      → find_transaction_by_id id db ≡ some t
      → find_wallet_by_id t.wallet_id db ≡ some w
      → IsCreditable E t w
  IsInRange E {db = db} (withdrawn id ran) =
      (t : Transaction) (w : Wallet)
      → find_transaction_by_id id db ≡ some t
      → find_wallet_by_id t.wallet_id db ≡ some w
      → IsDebitable E t w
  IsInRange E (refused id ran) = Unit
  IsInRange E (reserved user_id order_id amount minutes now id ran) = Unit
  IsInRange E {db = db} (paid d h r ran) =
      IsPayable E d h
      × ((w : Wallet)
          → find_wallet_by_user_id h.user_id db ≡ some w
          → Fits E.capacity (E.units w.balance +ℤ E.units (net_of d h)))
  IsInRange E (split action_id ran) = Unit
  IsInRange E (issued action_id total ran) = Unit
  IsInRange E (executed adapter policy platform_fee id price out ran) = Unit
  IsInRange E (hold_ended status order_id) = Unit
  IsInRange E (swept now) = Unit
  IsInRange E (deposit_opened allowed policy wallet_id amount key meta r ran) = Unit
  IsInRange E (withdrawal_opened wallet_id amount key r ran) = Unit
  IsInRange E (deposit_failed key) = Unit
