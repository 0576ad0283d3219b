-- ===== src/Wallet/Balances.antt =====
-- What a user is told of a wallet, src/modules/wallet/services/balance.service.ts and
-- wallet-calculator.service.ts. The currency and the reason of a freeze are left out.
use pine_backend.Base.{
  ℕ, ◌≡◌, refl, ◌∙◌, Bool, some, ok, pos, ◌-ℤ◌, int_laws, arith, if◌then◌else◌, Tx, pure, gets,
  or_throw, throw_if, ◌>>=◌,
}
use pine_backend.Decimals.{Decimals, IsExact, Fits}
use pine_backend.Store.Errors.{Error, wallet_not_found, wallet_frozen}
use pine_backend.Store.Rows.{Db, Wallet}
use pine_backend.Store.Lookups.{
  find_wallet_by_user_id, sum_active_reservations, sum_pending_deposits, sum_pending_withdrawals,
  sum_ledger_balance,
}
use pine_backend.Wallet.Ledger.{ledger_units, sum_ledger_balance_lem}
use pine_backend.Wallet.Posting.{AllReconciled}

module _ ⦃D : Decimals⦄ where
  open D use {Decimal, Number, sub, to_number, literal, num_lt}

  pub record WalletSummary : Type 0 where
    pub wallet_id : ℕ
    pub total_balance : Number
    pub reserved_balance : Number
    pub available_balance : Number
    pub pending_deposits : Number
    pub pending_withdrawals : Number
    pub is_frozen : Bool

  -- `Math.max(n, 0)`
  abbrev at_least_zero : Number → Number
  at_least_zero n = if num_lt n (literal 0 0) then literal 0 0 else n

  -- `calculateSummary`
  unfoldable pub calculate_summary : Wallet → Decimal → Decimal → Decimal → WalletSummary
  calculate_summary w reserved deposits withdrawals =
      let available = sub (sub w.balance reserved) withdrawals in
      record {
        wallet_id = w.id;
        total_balance = to_number w.balance;
        reserved_balance = to_number reserved;
        available_balance = at_least_zero (to_number available);
        pending_deposits = to_number deposits;
        pending_withdrawals = to_number withdrawals;
        is_frozen = w.is_frozen;
      }

  -- `getWalletSummary`
  unfoldable pub get_wallet_summary : ℕ → Tx Error Db WalletSummary
  unfolding calculate_summary
  get_wallet_summary user_id = do
    w ← or_throw (← gets (find_wallet_by_user_id user_id)) wallet_not_found
    reserved ← gets (sum_active_reservations w.id)
    deposits ← gets (sum_pending_deposits w.id)
    withdrawals ← gets (sum_pending_withdrawals w.id)
    pure (calculate_summary w reserved deposits withdrawals)

  -- `validateWalletActive`
  unfoldable pub validate_wallet_active : ℕ → Tx Error Db (Unit {0})
  validate_wallet_active user_id = do
    w ← or_throw (← gets (find_wallet_by_user_id user_id)) wallet_not_found
    throw_if w.is_frozen wallet_frozen

  pub record Reconciliation : Type 0 where
    pub wallet_balance : Number
    pub ledger_balance : Number
    pub discrepancy : Number

  -- `reconcile`, the nightly job
  unfoldable pub reconcile : ℕ → Tx Error Db Reconciliation
  reconcile user_id = do
    w ← or_throw (← gets (find_wallet_by_user_id user_id)) wallet_not_found
    ledger_balance ← gets (sum_ledger_balance w.id)
    pure (record {
      wallet_balance = to_number w.balance;
      ledger_balance = to_number ledger_balance;
      discrepancy = to_number (sub w.balance ledger_balance);
    })

module _ ⦃D : Decimals⦄ (E : IsExact) where
  open D use {Decimal, Number, sub, to_number}
  open E use {units, capacity, units_sub}

  -- Where every wallet agrees with its ledger and the ledger's sums are below the precision, the
  -- nightly reconciliation of a user with a wallet returns, and what it reports as the discrepancy is
  -- the number of an amount of nothing.
  pub reconcile_lem :
      (user_id : ℕ) (w : Wallet) (db : Db)
      → find_wallet_by_user_id user_id db ≡ some w
      → AllReconciled E db
      → Fits capacity (ledger_units E w.id db.ledger)
      → (r : Reconciliation) × (reconcile user_id db ≡ ok (r, db))
        × ((d : Decimal) × (r.discrepancy ≡ to_number d) × (units d ≡ pos 0))
  unfolding reconcile
  reconcile_lem user_id w db found all fits =
      let zero : Fits capacity (pos 0) = ground arith in
      let own = all user_id w found in
      let sum = sum_ledger_balance_lem E w.id db fits in
      let nil : units w.balance -ℤ units (sum_ledger_balance w.id db) ≡ pos 0 =
        rw (own.agrees, sum) (omega int_laws) in
      (
        record {
          wallet_balance = to_number w.balance;
          ledger_balance = to_number (sum_ledger_balance w.id db);
          discrepancy = to_number (sub w.balance (sum_ledger_balance w.id db));
        },
        rw found refl,
        (sub w.balance (sum_ledger_balance w.id db), refl, units_sub _ _ (rw nil zero) ∙ nil),
      )
