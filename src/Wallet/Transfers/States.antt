-- ===== src/Wallet/Transfers/States.antt =====
-- The states of a deposit and of a withdrawal: PENDING until it is processed or failed, once.
use pine_backend.Base.{
  ℕ, ◌≡◌, refl, true, false, arith, some, ok, err, Option-cases, inl, inr, find?-test, ◌⊎◌, Tx,
  Bool-cases, ==_iff, ◌==◌, find?-update_where,
}
use pine_backend.Decimals.{Decimals}
use pine_backend.Store.Keys.{is_pending, completed, failed, TransactionStatus, is_withdrawal}
use pine_backend.Store.Errors.{Error, already_processed, withdrawal_not_found}
use pine_backend.Store.Rows.{Db, Transaction}
use pine_backend.Store.Lookups.{find_transaction_by_id}
use pine_backend.Wallet.Transfers.{
  process_deposit, process_withdrawal, reject_withdrawal, set_transaction_status,
}
use pine_backend.Wallet.Transfers.Cash.{process_deposit-IsProcessed, process_withdrawal-IsProcessed}

module _ ⦃D : Decimals⦄ where
  -- The transaction of an id is there, and no longer pending.
  abbrev pub IsClosed : ℕ → Db → Type 0
  IsClosed id db =
      (t : Transaction) × (find_transaction_by_id id db ≡ some t) × (is_pending t.status ≡ false)

  closes :
      (id : ℕ) (t : Transaction) (status : TransactionStatus) (db db' : Db)
      → is_pending status ≡ false
      → find_transaction_by_id id db ≡ some t
      → db'.transactions ≡ set_transaction_status t.id status db.transactions
      → IsClosed id db'
  closes id t status db db' final found set =
      let same : (t.id == id) ≡ true =
        find?-test (λ (x : Transaction). x.id == id) db.transactions t found in
      let own : t.id ≡ id = (==_iff _ _).0 same in
      let after =
        find?-update_where (λ (x : Transaction). x.id == id) (λ (x : Transaction). x.id == t.id)
          (λ (x : Transaction). record x { status = status }) db.transactions (λ x. refl) in
      (record t { status = status }, rw (set, after, found) (ground (arith, own)), final)

  closed_deposit :
      (id : ℕ) (db : Db) → IsClosed id db → process_deposit id db ≡ err already_processed
  unfolding process_deposit
  closed_deposit id db (t, found, closed) = ground arith

  closed_withdrawal :
      (id : ℕ) (db : Db) → IsClosed id db → process_withdrawal id db ≡ err already_processed
  unfolding process_withdrawal
  closed_withdrawal id db (t, found, closed) = ground arith

  reject_closes :
      (id : ℕ) (db db' : Db) (v : Unit {0})
      → reject_withdrawal id db ≡ ok (v, db')
      → IsClosed id db'
  unfolding reject_withdrawal
  reject_closes id db db' v h = elim (Option-cases (find_transaction_by_id id db)) [
    | inl missing ↦ ground arith
    | inr (t, found) ↦
        let same : (t.id == id) ≡ true =
          find?-test (λ (x : Transaction). x.id == id) db.transactions t found in
        let own : t.id ≡ id = (==_iff _ _).0 same in
        closes id t failed db db' refl found (ground (arith, own))
  ]

  closed_rejection :
      (id : ℕ) (db : Db)
      → IsClosed id db
      → (reject_withdrawal id db ≡ err already_processed)
        ⊎ (reject_withdrawal id db ≡ err withdrawal_not_found)
  unfolding reject_withdrawal
  closed_rejection id db (t, found, closed) = elim (Bool-cases (is_withdrawal t.type)) [
    | inl withdraws ↦ inl (ground arith)
    | inr other ↦ inr (ground arith)
  ]

  -- The three calls that end a pending transaction.
  pub data Ending : Type 0 where
    by_deposit by_withdrawal by_rejection : Ending

  abbrev pub end_by : Ending → ℕ → Tx Error Db (Unit {0})
  end_by by_deposit = process_deposit
  end_by by_withdrawal = process_withdrawal
  end_by by_rejection = reject_withdrawal

  end_by-IsClosed :
      (a : Ending) (id : ℕ) (db db' : Db) (v : Unit {0})
      → end_by a id db ≡ ok (v, db')
      → IsClosed id db'
  end_by-IsClosed by_deposit id db db' v h =
      let (t, w, found, wallet, done) = process_deposit-IsProcessed id db db' v h in
      closes id t completed db db' refl found done.transactions
  end_by-IsClosed by_withdrawal id db db' v h =
      let (t, w, found, wallet, covered, done) = process_withdrawal-IsProcessed id db db' v h in
      closes id t completed db db' refl found done.transactions
  end_by-IsClosed by_rejection id db db' v h = reject_closes id db db' v h

  closed_end_by :
      (b : Ending) (id : ℕ) (db : Db)
      → IsClosed id db
      → (end_by b id db ≡ err already_processed) ⊎ (end_by b id db ≡ err withdrawal_not_found)
  closed_end_by by_deposit id db h = inl (closed_deposit id db h)
  closed_end_by by_withdrawal id db h = inl (closed_withdrawal id db h)
  closed_end_by by_rejection id db h = closed_rejection id db h

  -- A transaction ends once: after a deposit or a withdrawal is processed, or a withdrawal is
  -- rejected, each of the three calls on it is refused.
  pub ends_once :
      (a b : Ending) (id : ℕ) (db db' : Db) (v : Unit {0})
      → end_by a id db ≡ ok (v, db')
      → (end_by b id db' ≡ err already_processed) ⊎ (end_by b id db' ≡ err withdrawal_not_found)
  ends_once a b id db db' v h = closed_end_by b id db' (end_by-IsClosed a id db db' v h)

  -- Rejecting a withdrawal moves no money: wallets, ledger and holds are as before.
  pub reject_withdrawal_lem :
      (id : ℕ) (db db' : Db) (v : Unit {0})
      → reject_withdrawal id db ≡ ok (v, db')
      → (db'.wallets ≡ db.wallets) × (db'.ledger ≡ db.ledger) × (db'.reservations ≡ db.reservations)
  unfolding reject_withdrawal
  reject_withdrawal_lem id db db' v h = (ground arith, ground arith, ground arith)
