-- ===== src/Dividends/Credit.antt =====
-- The credit of a dividend is a posting: the wallet and its ledger move together.
use pine_backend.Base.{
  ℕ, ◌≡◌, refl, ◌∙◌, some, ok, err, transaction, ◌++◌, arith, int_laws, Option-cases, inl, inr, ◌⊎◌,
  ◌≢◌, pos, ◌+ℤ◌, ◌≤ℤ◌, update_where,
}
use pine_backend.Decimals.{Decimals, IsExact, Fits}
use pine_backend.Store.Rows.{Db, Holding, Wallet, Dividend}
use pine_backend.Store.Lookups.{find_wallet_by_user_id, same_version, posted_to}
use pine_backend.Dividends.{
  pay_holder, create_distribution, credit_holder, dividend_entries, net_of,
}
use pine_backend.Trading.Submission.Steps.{Result-cases}
use pine_backend.Wallet.Ledger.{ledger_units}
use pine_backend.Wallet.Posting.{UniqueWallets, AllReconciled, IsPostedIn, posted-AllReconciled}

module _ ⦃D : Decimals⦄ (d : Dividend) (h : Holding) where
  open D use {Decimal, increment}

  -- A credit has been posted to the holder's wallet.
  pub record IsCredited (w : Wallet) (db db' : Db) : Type 0 where
    pub id : ℕ
    pub found : find_wallet_by_user_id h.user_id db ≡ some w
    pub wallets :
        db'.wallets
        ≡ update_where (same_version w) (posted_to (λ b. increment b (net_of d h))) db.wallets
    pub ledger : db'.ledger ≡ db.ledger ++ dividend_entries id d h w

  -- Nothing has happened to the cash tables.
  pub record IsUncredited (db db' : Db) : Type 0 where
    pub wallets : db'.wallets ≡ db.wallets
    pub ledger : db'.ledger ≡ db.ledger

  create_distribution_cash :
      (db db' : Db) (u : Unit {0}) → create_distribution d h db ≡ ok (u, db') → IsUncredited db db'
  unfolding create_distribution
  create_distribution_cash db db' u ran = record { wallets = ground arith; ledger = ground arith }

  credit_holder_cash :
      (db db' : Db) (u : Unit {0})
      → credit_holder d h db ≡ ok (u, db')
      → ((w : Wallet) × IsCredited w db db') ⊎ IsUncredited db db'
  unfolding credit_holder
  credit_holder_cash db db' u ran = elim (Option-cases (find_wallet_by_user_id h.user_id db)) [
    | inl none_there ↦ inr (record { wallets = ground arith; ledger = ground arith })
    | inr (w, found) ↦
        inl
          (w, record { id = db.next; found = found; wallets = ground arith; ledger = ground arith })
  ]

  IsCredited-from :
      (w : Wallet) (db db1 db2 : Db)
      → IsUncredited db db1
      → IsCredited w db1 db2
      → IsCredited w db db2
  IsCredited-from w db db1 db2 same credited = record {
    id = credited.id;
    found = rw (← same.wallets) credited.found;
    wallets = rw (← same.wallets) credited.wallets;
    ledger = rw (← same.ledger) credited.ledger;
  }

  IsUncredited-from :
      (db db1 db2 : Db) → IsUncredited db db1 → IsUncredited db1 db2 → IsUncredited db db2
  IsUncredited-from db db1 db2 p q = record {
    wallets = q.wallets ∙ p.wallets;
    ledger = q.ledger ∙ p.ledger;
  }

  credit_from :
      (db db1 : Db)
      → IsUncredited db db1
      → ((w : Wallet) × IsCredited w db (transaction (credit_holder d h) db1).1)
        ⊎ IsUncredited db (transaction (credit_holder d h) db1).1
  credit_from db db1 same = elim (Result-cases (credit_holder d h db1)) [
    | inr (e, failed) ↦
        let end : transaction (credit_holder d h) db1 ≡ (err e, db1) = ground (arith, failed) in
        rw end (inr same)
    | inl ((u, db2), ran) ↦
        let end : transaction (credit_holder d h) db1 ≡ (ok u, db2) = ground (arith, ran) in
        rw end (elim (credit_holder_cash db1 db2 u ran) [
          | inl (w, credited) ↦ inl (w, IsCredited-from w db db1 db2 same credited)
          | inr still ↦ inr (IsUncredited-from db db1 db2 same still)
        ])
  ]

  -- Paying a holder either posts one credit or leaves the cash tables alone.
  pub pay_holder_cash :
      (db : Db)
      → ((w : Wallet) × IsCredited w db (pay_holder d h db).1)
        ⊎ IsUncredited db (pay_holder d h db).1
  unfolding pay_holder
  pay_holder_cash db = elim (Result-cases (create_distribution d h db)) [
    | inl ((u, db1), ran) ↦ rw ran (credit_from db db1 (create_distribution_cash db db1 u ran))
    | inr (e, failed) ↦ rw failed (inr (record { wallets = refl; ledger = refl }))
  ]

module _ ⦃D : Decimals⦄ (E : IsExact) (d : Dividend) where
  open D use {Decimal, store, increment}
  open E use {units, capacity, units_increment, store_increment}

  -- What a holder is paid is in whole columns, and not negative.
  pub record IsPayable (h : Holding) : Type 0 where
    pub whole_columns : store (net_of d h) ≡ net_of d h
    pub positive : pos 0 ≤ℤ units (net_of d h)

  entries_own :
      (id : ℕ) (h : Holding) (w : Wallet)
      → store (net_of d h) ≡ net_of d h
      → ledger_units E w.id (dividend_entries id d h w) ≡ units (net_of d h)
  entries_own id h w whole = rw whole (grind int_laws)

  entries_others :
      (id : ℕ) (h : Holding) (w : Wallet) (i : ℕ)
      → i ≢ w.id
      → ledger_units E i (dividend_entries id d h w) ≡ pos 0
  entries_others id h w i differs = grind int_laws

  pub credited-IsPostedIn :
      (h : Holding) (w : Wallet) (db db' : Db)
      → IsPayable h
      → Fits capacity (units w.balance +ℤ units (net_of d h))
      → IsCredited d h w db db'
      → AllReconciled E db
      → IsPostedIn E db db'
  credited-IsPostedIn h w db db' payable fits credited all =
      let before = all h.user_id w credited.found in
      let moved = units_increment w.balance (net_of d h) before.stored payable.whole_columns fits in
      let solvent : pos 0 ≤ℤ units w.balance +ℤ units (net_of d h) =
        let rich = before.solvent in let positive = payable.positive in omega int_laws in
      record {
        user = h.user_id;
        wallet = w;
        move = λ b. increment b (net_of d h);
        entries = dividend_entries credited.id d h w;
        posting = record {
          stored = store_increment w.balance (net_of d h);
          moved = rw (moved, entries_own credited.id h w payable.whole_columns);
          solvent = rw moved solvent;
          others = entries_others credited.id h w;
        };
        found = credited.found;
        wallets = credited.wallets;
        ledger = credited.ledger;
      }

  pub credited-AllReconciled :
      (h : Holding) (w : Wallet) (db db' : Db)
      → IsPayable h
      → Fits capacity (units w.balance +ℤ units (net_of d h))
      → IsCredited d h w db db'
      → UniqueWallets db
      → AllReconciled E db
      → AllReconciled E db'
  credited-AllReconciled h w db db' payable fits credited unique all =
      posted-AllReconciled E db db' (credited-IsPostedIn h w db db' payable fits credited all)
        unique all
