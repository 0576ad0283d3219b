-- ===== src/Dividends/Shares.antt =====
-- Stock splits and bonus issues move shares and no cash.
use pine_backend.Base.{
  ℕ, ◌≡◌, refl, ok, List, [], ◌∷◌, arith, ◌==◌, find?, Option-cases, Bool-cases, inl, inr,
}
use pine_backend.Decimals.{Decimals, nought}
use pine_backend.Store.Rows.{Db, Holding, ShareRatio, ActionStatus}
use pine_backend.Dividends.{
  split_all, apply_stock_split, bonus_shares, bonus_all, distribute_bonus_shares,
  find_shareholders_by_stock, update_corporate_action_status,
}

module _ ⦃D : Decimals⦄ where
  open D use {Decimal, add, lte}

  -- Nothing has happened to the cash tables.
  pub record IsCashless (db db' : Db) : Type 0 where
    pub wallets : db'.wallets ≡ db.wallets
    pub ledger : db'.ledger ≡ db.ledger

  split_all-IsCashless :
      (s : ShareRatio) (hs : List Holding) (db : Db) → IsCashless db (split_all s hs db)
  unfolding split_all
  split_all-IsCashless s [] db = record { wallets = refl; ledger = refl }
  split_all-IsCashless s (h ∷ hs) db =
      let rest = split_all-IsCashless s hs _ in
      record { wallets = rest.wallets; ledger = rest.ledger }

  bonus_all-IsCashless :
      (s : ShareRatio) (hs : List Holding) (total : Decimal) (db : Db)
      → IsCashless db (bonus_all s hs total db).1
  unfolding bonus_all
  bonus_all-IsCashless s [] total db = record { wallets = refl; ledger = refl }
  bonus_all-IsCashless s (h ∷ hs) total db = elim (Bool-cases (lte (bonus_shares s h) nought)) [
    | inl skip ↦ rw skip (bonus_all-IsCashless s hs total db)
    | inr some_ ↦ rw some_ (
        let rest = bonus_all-IsCashless s hs (add total (bonus_shares s h)) _ in
        record { wallets = rest.wallets; ledger = rest.ledger })
  ]

  pub apply_stock_split_cash :
      (id : ℕ) (db db' : Db) → apply_stock_split id db ≡ (ok tt, db') → IsCashless db db'
  unfolding apply_stock_split
  apply_stock_split_cash id db db' ran =
      elim (Option-cases (find? (λ (s : ShareRatio). s.action_id == id) db.splits)) [
        | inl missing ↦ ground (arith, missing)
        | inr (s, found) ↦
            let db1 = update_corporate_action_status id ActionStatus.processing db in
            let done = split_all-IsCashless s (find_shareholders_by_stock s.stock_id db1) db1 in
            record {
              wallets = ground (arith, found, done.wallets);
              ledger = ground (arith, found, done.ledger);
            }
      ]

  pub distribute_bonus_shares_cash :
      (id : ℕ) (db db' : Db) (total : Decimal)
      → distribute_bonus_shares id db ≡ (ok total, db')
      → IsCashless db db'
  unfolding distribute_bonus_shares
  distribute_bonus_shares_cash id db db' total ran =
      elim (Option-cases (find? (λ (s : ShareRatio). s.action_id == id) db.bonuses)) [
        | inl missing ↦ ground (arith, missing)
        | inr (s, found) ↦
            let db1 = update_corporate_action_status id ActionStatus.processing db in
            let done =
              bonus_all-IsCashless s (find_shareholders_by_stock s.stock_id db1) nought db1 in
            record {
              wallets = ground (arith, found, done.wallets);
              ledger = ground (arith, found, done.ledger);
            }
      ]
