-- ===== src/Wallet/Posting.antt =====
-- A posting moves the balance of one wallet, found with its version, and appends ledger entries. If
-- the two amounts are the same, every wallet still shows what its ledger says.
use pine_backend.Base.{
  ℕ, ◌≡◌, refl, ◌∙◌, List, ◌++◌, ◌≢◌, pos, ◌+ℤ◌, ◌≤ℤ◌, int_laws, arith, if◌then◌else◌, none, some,
  ==_iff, ◌==◌, inl, inr, Bool-cases, Option-cases, update_where, find?-update_where,
}
use pine_backend.Decimals.{Decimals, IsExact}
use pine_backend.Store.Rows.{Db, Wallet, LedgerEntry}
use pine_backend.Store.Lookups.{find_wallet_by_user_id, same_version, posted_to}
use pine_backend.Wallet.Ledger.{ledger_units, ledger_units-append, IsReconciled}

module _ ⦃D : Decimals⦄ where
  -- The id is the primary key of the wallets.
  abbrev pub UniqueWallets : Db → Type 0
  UniqueWallets db =
      (u v : ℕ) (a b : Wallet)
      → find_wallet_by_user_id u db ≡ some a
      → find_wallet_by_user_id v db ≡ some b
      → a.id ≡ b.id
      → a ≡ b

module _ ⦃D : Decimals⦄ (E : IsExact) where
  open D use {Decimal, store}
  open E use {units}

  abbrev pub AllReconciled : Db → Type 0
  AllReconciled db =
      (u : ℕ) (w : Wallet) → find_wallet_by_user_id u db ≡ some w → IsReconciled E db w

  -- What leaves wallets and ledger alone keeps them in agreement.
  pub unmoved-AllReconciled :
      (db db' : Db)
      → db'.wallets ≡ db.wallets
      → db'.ledger ≡ db.ledger
      → AllReconciled db
      → AllReconciled db'
  unmoved-AllReconciled db db' wallets ledger all u w found =
      let before = all u w (rw wallets at found) in
      record { stored = before.stored; agrees = rw ledger before.agrees; solvent = before.solvent }

  -- The entries of a posting on the account of `w` add up to what the balance moves by.
  pub record IsPosting (w : Wallet) (f : Decimal → Decimal) (es : List LedgerEntry) : Type 0 where
    pub stored : store (f w.balance) ≡ f w.balance
    pub moved : units (f w.balance) ≡ units w.balance +ℤ ledger_units E w.id es
    pub solvent : pos 0 ≤ℤ units (f w.balance)
    pub others : (i : ℕ) → i ≢ w.id → ledger_units E i es ≡ pos 0

  module _ (w : Wallet) (f : Decimal → Decimal) (es : List LedgerEntry) (db db' : Db) (u : ℕ)
      (posting : IsPosting w f es) (unique : UniqueWallets db)
      (wallets : db'.wallets ≡ update_where (same_version w) (posted_to f) db.wallets)
      (ledger : db'.ledger ≡ db.ledger ++ es) (found : find_wallet_by_user_id u db ≡ some w)
      (all : AllReconciled db) where
    -- The row that a user's query finds afterwards.
    posted_row :
        (v : ℕ) (x x' : Wallet)
        → find_wallet_by_user_id v db ≡ some x
        → find_wallet_by_user_id v db' ≡ some x'
        → x' ≡ (if same_version w x then posted_to f x else x)
    posted_row v x x' old new =
        let after =
          find?-update_where (λ (r : Wallet). r.user_id == v) (same_version w) (posted_to f)
            db.wallets (λ r. refl) in
        let row : some (if same_version w x then posted_to f x else x) ≡ some x' =
          rw (wallets, after, old) at new in
        cc row

    posted_ledger :
        (i : ℕ) → ledger_units E i db'.ledger ≡ ledger_units E i db.ledger +ℤ ledger_units E i es
    posted_ledger i = rw ledger (ledger_units-append E i db.ledger es)

    vanished :
        (v : ℕ) (x' : Wallet)
        → find_wallet_by_user_id v db ≡ none
        → find_wallet_by_user_id v db' ≡ some x'
        → ⊥
    vanished v x' old new =
        let after =
          find?-update_where (λ (r : Wallet). r.user_id == v) (same_version w) (posted_to f)
            db.wallets (λ r. refl) in
        let row : none ≡ some x' = rw (wallets, after, old) at new in cc row

    same_wallet :
        (v : ℕ) (x x' : Wallet)
        → find_wallet_by_user_id v db ≡ some x
        → find_wallet_by_user_id v db' ≡ some x'
        → x.id ≡ w.id
        → IsReconciled E db' x'
    same_wallet v x x' old new same =
        let e : x ≡ w = unique v u x w old found same in
        let row : x' ≡ posted_to f w = posted_row v x x' old new ∙ rw e (ground arith) in
        let before = all u w found in
        rw row (record {
          stored = posting.stored;
          agrees = rw (posted_ledger w.id, posting.moved, before.agrees);
          solvent = posting.solvent;
        })

    other_wallet :
        (v : ℕ) (x x' : Wallet)
        → find_wallet_by_user_id v db ≡ some x
        → find_wallet_by_user_id v db' ≡ some x'
        → x.id ≢ w.id
        → IsReconciled E db' x'
    other_wallet v x x' old new differs =
        let row : x' ≡ x = ground (arith, posted_row v x x' old new) in
        let before = all v x old in
        rw row (record {
          stored = before.stored;
          agrees =
              rw (posted_ledger x.id, posting.others x.id differs, before.agrees) (omega int_laws);
          solvent = before.solvent;
        })

    pub posting-AllReconciled : AllReconciled db'
    posting-AllReconciled v x' new = elim (Option-cases (find_wallet_by_user_id v db)) [
      | inl gone ↦ absurd (vanished v x' gone new)
      | inr (x, old) ↦ elim (Bool-cases (x.id == w.id)) [
        | inl same ↦ same_wallet v x x' old new ((==_iff _ _).0 same)
        | inr differs ↦ other_wallet v x x' old new (λ e. ground arith)
      ]
    ]

  -- One wallet and its account have been moved by the same amount.
  pub record IsPostedIn (db db' : Db) : Type 0 where
    pub user : ℕ
    pub wallet : Wallet
    pub move : Decimal → Decimal
    pub entries : List LedgerEntry
    pub posting : IsPosting wallet move entries
    pub found : find_wallet_by_user_id user db ≡ some wallet
    pub wallets : db'.wallets ≡ update_where (same_version wallet) (posted_to move) db.wallets
    pub ledger : db'.ledger ≡ db.ledger ++ entries

  pub posted-AllReconciled :
      (db db' : Db) → IsPostedIn db db' → UniqueWallets db → AllReconciled db → AllReconciled db'
  posted-AllReconciled db db' p unique all =
      posting-AllReconciled p.wallet p.move p.entries db db' p.user p.posting unique p.wallets
        p.ledger p.found all
