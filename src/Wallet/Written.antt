-- ===== src/Wallet/Written.antt =====
-- The wallets after one of them has been written: who finds which row.
use pine_backend.Base.{
  ℕ, ◌≡◌, refl, sym, ap, ◌∙◌, none, some, Option-cases, inl, inr, arith, if◌then◌else◌,
  find?-update_where, ◌==◌, update_where,
}
use pine_backend.Decimals.{Decimals}
use pine_backend.Store.Rows.{Db, Wallet}
use pine_backend.Store.Lookups.{find_wallet_by_user_id, find_wallet_by_id, same_version, posted_to}
use pine_backend.Wallet.Posting.{UniqueWallets}

module _ ⦃D : Decimals⦄ where
  open D use {Decimal}

  -- The user of a wallet has no other one.
  abbrev pub OneWalletPerUser : Db → Type 0
  OneWalletPerUser db =
      (i : ℕ) (w : Wallet)
      → find_wallet_by_id i db ≡ some w
      → find_wallet_by_user_id w.user_id db ≡ some w

  module _ (w : Wallet) (f : Decimal → Decimal) (db db' : Db)
      (wallets : db'.wallets ≡ update_where (same_version w) (posted_to f) db.wallets) where
    abbrev pub after_posting : Wallet → Wallet
    after_posting x = if same_version w x then posted_to f x else x

    same_id : (x : Wallet) → (after_posting x).id ≡ x.id
    same_id x = ground arith

    same_user : (x : Wallet) → (after_posting x).user_id ≡ x.user_id
    same_user x = ground arith

    -- The row of a user afterwards comes from the one before.
    pub row_before :
        (v : ℕ) (x' : Wallet)
        → find_wallet_by_user_id v db' ≡ some x'
        → (x : Wallet) × (find_wallet_by_user_id v db ≡ some x) × (x' ≡ after_posting x)
    row_before v x' new = elim (Option-cases (find_wallet_by_user_id v db)) [
      | inl gone ↦
          let after =
            find?-update_where (λ (r : Wallet). r.user_id == v) (same_version w) (posted_to f)
              db.wallets (λ r. refl) in
          let row : none ≡ some x' = rw (wallets, after, gone) at new in absurd (cc row)
      | inr (x, old) ↦
          let after =
            find?-update_where (λ (r : Wallet). r.user_id == v) (same_version w) (posted_to f)
              db.wallets (λ r. refl) in
          let row : some (after_posting x) ≡ some x' = rw (wallets, after, old) at new in
          (x, old, cc row)
    ]

    pub posting-UniqueWallets : UniqueWallets db → UniqueWallets db'
    posting-UniqueWallets unique u v a b p q e =
        let (a0, p0, pa) = row_before u a p in
        let (b0, q0, qb) = row_before v b q in
        let ids : a0.id ≡ b0.id =
          sym (same_id a0)
          ∙ sym (ap (λ (x : Wallet). x.id) pa)
          ∙ e
          ∙ ap (λ (x : Wallet). x.id) qb
          ∙ same_id b0 in
        pa ∙ ap after_posting (unique u v a0 b0 p0 q0 ids) ∙ sym qb

    pub posting-OneWalletPerUser : OneWalletPerUser db → OneWalletPerUser db'
    posting-OneWalletPerUser one i x' new = elim (Option-cases (find_wallet_by_id i db)) [
      | inl gone ↦
          let after =
            find?-update_where (λ (r : Wallet). r.id == i) (same_version w) (posted_to f) db.wallets
              (λ r. refl) in
          let row : none ≡ some x' = rw (wallets, after, gone) at new in absurd (cc row)
      | inr (x, old) ↦
          let after =
            find?-update_where (λ (r : Wallet). r.id == i) (same_version w) (posted_to f) db.wallets
              (λ r. refl) in
          let row : some (after_posting x) ≡ some x' = rw (wallets, after, old) at new in
          let here : x' ≡ after_posting x = cc row in
          let by_user =
            find?-update_where (λ (r : Wallet). r.user_id == x.user_id) (same_version w)
              (posted_to f) db.wallets (λ r. refl) in
          let found : find_wallet_by_user_id x.user_id db' ≡ some (after_posting x) =
            rw (wallets, by_user, one i x old) refl in
          rw here (rw (same_user x) found)
    ]
