-- ===== src/Wallet/Transfers/Cash.antt =====
-- Deposits and withdrawals against the ledger: processing either keeps every wallet showing what its
-- ledger says, and the entries of either balance.
use pine_backend.Base.{
  ℕ, ◌≡◌, true, false, List, ◌++◌, ◌≢◌, pos, ◌+ℤ◌, ◌-ℤ◌, ◌≤ℤ◌, int_laws, arith, some, ok,
  update_where, Option-cases, inl, inr,
}
use pine_backend.Decimals.{Decimals, IsExact, Fits, nought}
use pine_backend.Store.Keys.{is_pending, completed}
use pine_backend.Store.Rows.{Db, Wallet, LedgerEntry, Transaction}
use pine_backend.Store.Lookups.{find_wallet_by_id, find_transaction_by_id, same_version, posted_to}
use pine_backend.Wallet.Ledger.{ledger_units}
use pine_backend.Wallet.Posting.{
  UniqueWallets, AllReconciled, IsPosting, IsPostedIn, posted-AllReconciled,
}
use pine_backend.Wallet.Written.{OneWalletPerUser}
use pine_backend.Wallet.Transfers.{
  process_deposit, process_withdrawal, deposit_entries, withdrawal_entries, set_transaction_status,
}
use pine_backend.Trading.Settlement.Cash.{not_overdrawn}

module _ ⦃D : Decimals⦄ where
  open D use {Decimal, lt, sub}

  -- What processing a transaction has found and written.
  pub record IsProcessed (t : Transaction) (w : Wallet) (f : Decimal → Decimal)
      (es : List LedgerEntry) (db db' : Db) : Type 0 where
    pub was_pending : is_pending t.status ≡ true
    pub wallets : db'.wallets ≡ update_where (same_version w) (posted_to f) db.wallets
    pub ledger : db'.ledger ≡ db.ledger ++ es
    pub transactions : db'.transactions ≡ set_transaction_status t.id completed db.transactions

  pub process_deposit-IsProcessed :
      (id : ℕ) (db db' : Db) (v : Unit {0})
      → process_deposit id db ≡ ok (v, db')
      → (t : Transaction) × (w : Wallet) × (find_transaction_by_id id db ≡ some t)
        × (find_wallet_by_id t.wallet_id db ≡ some w)
        × IsProcessed t w (λ b. D.increment b t.amount) (deposit_entries t w) db db'
  unfolding process_deposit
  process_deposit-IsProcessed id db db' v h = elim (Option-cases (find_transaction_by_id id db)) [
    | inl missing ↦ ground arith
    | inr (t, found) ↦ elim (Option-cases (find_wallet_by_id t.wallet_id db)) [
      | inl gone ↦ ground arith
      | inr (w, wallet) ↦ (t, w, found, wallet, ground arith)
    ]
  ]

  pub process_withdrawal-IsProcessed :
      (id : ℕ) (db db' : Db) (v : Unit {0})
      → process_withdrawal id db ≡ ok (v, db')
      → (t : Transaction) × (w : Wallet) × (find_transaction_by_id id db ≡ some t)
        × (find_wallet_by_id t.wallet_id db ≡ some w)
        × (lt (sub w.balance t.amount) nought ≡ false)
        × IsProcessed t w (λ b. D.decrement b t.amount) (withdrawal_entries t w) db db'
  unfolding process_withdrawal
  process_withdrawal-IsProcessed id db db' v h =
      elim (Option-cases (find_transaction_by_id id db)) [
        | inl missing ↦ ground arith
        | inr (t, found) ↦ elim (Option-cases (find_wallet_by_id t.wallet_id db)) [
          | inl gone ↦ ground arith
          | inr (w, wallet) ↦ (t, w, found, wallet, ground arith, ground arith)
        ]
      ]

module _ ⦃D : Decimals⦄ (E : IsExact) where
  open D use {Decimal, store, add}
  open E use {
    units, capacity, units_nought, units_increment, units_decrement, store_increment,
    store_decrement,
  }

  deposit_own :
      (t : Transaction) (w : Wallet)
      → store t.amount ≡ t.amount
      → ledger_units E w.id (deposit_entries t w) ≡ units t.amount
  deposit_own t w h = rw h (grind int_laws)

  deposit_others :
      (t : Transaction) (w : Wallet) (i : ℕ)
      → i ≢ w.id
      → ledger_units E i (deposit_entries t w) ≡ pos 0
  deposit_others t w i h = grind int_laws

  withdrawal_own :
      (t : Transaction) (w : Wallet)
      → store t.amount ≡ t.amount
      → ledger_units E w.id (withdrawal_entries t w) ≡ pos 0 -ℤ units t.amount
  withdrawal_own t w h = rw h (grind int_laws)

  withdrawal_others :
      (t : Transaction) (w : Wallet) (i : ℕ)
      → i ≢ w.id
      → ledger_units E i (withdrawal_entries t w) ≡ pos 0
  withdrawal_others t w i h = grind int_laws

  -- The stored amount of a deposit is positive, in whole columns, and fits its wallet.
  pub record IsCreditable (t : Transaction) (w : Wallet) : Type 0 where
    pub whole_columns : store t.amount ≡ t.amount
    pub positive : pos 0 ≤ℤ units t.amount
    pub fits : Fits capacity (units w.balance +ℤ units t.amount)

  pub record IsDebitable (t : Transaction) (w : Wallet) : Type 0 where
    pub whole_columns : store t.amount ≡ t.amount
    pub fits : Fits capacity (units w.balance -ℤ units t.amount)

  pub process_deposit-IsPostedIn :
      (id : ℕ) (db db' : Db) (v : Unit {0})
      → OneWalletPerUser db
      → ((t : Transaction) (w : Wallet)
          → find_transaction_by_id id db ≡ some t
          → find_wallet_by_id t.wallet_id db ≡ some w
          → IsCreditable t w)
      → process_deposit id db ≡ ok (v, db')
      → AllReconciled E db
      → IsPostedIn E db db'
  process_deposit-IsPostedIn id db db' v own fits h all =
      let (t, w, found, wallet, done) = process_deposit-IsProcessed id db db' v h in
      let of_user = own t.wallet_id w wallet in
      let before = all w.user_id w of_user in
      let amount = fits t w found wallet in
      let moved =
        units_increment w.balance t.amount before.stored amount.whole_columns amount.fits in
      let solvent : pos 0 ≤ℤ units w.balance +ℤ units t.amount =
        let rich = before.solvent in let positive = amount.positive in omega int_laws in
      let posting : IsPosting E w (λ b. D.increment b t.amount) (deposit_entries t w) = record {
        stored = store_increment w.balance t.amount;
        moved = rw (moved, deposit_own t w amount.whole_columns);
        solvent = rw moved solvent;
        others = deposit_others t w;
      } in
      record {
        user = w.user_id;
        wallet = w;
        move = λ b. D.increment b t.amount;
        entries = deposit_entries t w;
        posting = posting;
        found = of_user;
        wallets = done.wallets;
        ledger = done.ledger;
      }

  pub process_withdrawal-IsPostedIn :
      (id : ℕ) (db db' : Db) (v : Unit {0})
      → OneWalletPerUser db
      → ((t : Transaction) (w : Wallet)
          → find_transaction_by_id id db ≡ some t
          → find_wallet_by_id t.wallet_id db ≡ some w
          → IsDebitable t w)
      → process_withdrawal id db ≡ ok (v, db')
      → AllReconciled E db
      → IsPostedIn E db db'
  process_withdrawal-IsPostedIn id db db' v own fits h all =
      let (t, w, found, wallet, covered, done) = process_withdrawal-IsProcessed id db db' v h in
      let of_user = own t.wallet_id w wallet in
      let before = all w.user_id w of_user in
      let amount = fits t w found wallet in
      let moved =
        units_decrement w.balance t.amount before.stored amount.whole_columns amount.fits in
      let posting : IsPosting E w (λ b. D.decrement b t.amount) (withdrawal_entries t w) = record {
        stored = store_decrement w.balance t.amount;
        moved = rw (moved, withdrawal_own t w amount.whole_columns) (omega int_laws);
        solvent = rw moved (not_overdrawn E w.balance t.amount amount.fits covered);
        others = withdrawal_others t w;
      } in
      record {
        user = w.user_id;
        wallet = w;
        move = λ b. D.decrement b t.amount;
        entries = withdrawal_entries t w;
        posting = posting;
        found = of_user;
        wallets = done.wallets;
        ledger = done.ledger;
      }

  -- Processing a deposit keeps every wallet in agreement with its ledger and not overdrawn, where
  -- wallets are unique by id and by user, and the amount is whole, not negative and below the
  -- precision.
  pub process_deposit-AllReconciled :
      (id : ℕ) (db db' : Db) (v : Unit {0})
      → UniqueWallets db
      → OneWalletPerUser db
      → ((t : Transaction) (w : Wallet)
          → find_transaction_by_id id db ≡ some t
          → find_wallet_by_id t.wallet_id db ≡ some w
          → IsCreditable t w)
      → process_deposit id db ≡ ok (v, db')
      → AllReconciled E db
      → AllReconciled E db'
  process_deposit-AllReconciled id db db' v unique own fits h all =
      posted-AllReconciled E db db' (process_deposit-IsPostedIn id db db' v own fits h all) unique
        all

  -- Processing a withdrawal keeps every wallet in agreement with its ledger and not overdrawn, where
  -- wallets are unique by id and by user, and the amount is whole and below the precision.
  pub process_withdrawal-AllReconciled :
      (id : ℕ) (db db' : Db) (v : Unit {0})
      → UniqueWallets db
      → OneWalletPerUser db
      → ((t : Transaction) (w : Wallet)
          → find_transaction_by_id id db ≡ some t
          → find_wallet_by_id t.wallet_id db ≡ some w
          → IsDebitable t w)
      → process_withdrawal id db ≡ ok (v, db')
      → AllReconciled E db
      → AllReconciled E db'
  process_withdrawal-AllReconciled id db db' v unique own fits h all =
      posted-AllReconciled E db db' (process_withdrawal-IsPostedIn id db db' v own fits h all)
        unique all
