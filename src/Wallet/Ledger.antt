-- ===== src/Wallet/Ledger.antt =====
-- The specification of a wallet's balance: the sum of the entries on its account, credits less
-- debits. `balance` is a denormalised copy of it.
use pine_backend.Base.{
  ℕ, ◌≡◌, ◌∙◌, true, false, List, [], ◌∷◌, ◌++◌, map, ℤ, pos, ◌+ℤ◌, ◌-ℤ◌, ◌≤ℤ◌, int_laws,
  if◌then◌else◌, ◌&&◌,
}
use pine_backend.Decimals.{Decimals, IsExact, Fits, total, sum_or_zero}
use pine_backend.Store.Keys.{is_user_wallet, is_credit, refers_to}
use pine_backend.Store.Rows.{Db, Wallet, LedgerEntry}
use pine_backend.Store.Lookups.{sum_ledger_balance, entry_amounts}

module _ ⦃D : Decimals⦄ (E : IsExact) where
  open D use {Decimal}
  open E use {units, capacity, units_sum, units_sub}

  -- What an entry adds to the account of a wallet.
  abbrev pub entry_units : ℕ → LedgerEntry → ℤ
  entry_units wallet_id e =
      if refers_to wallet_id e.wallet_id && is_user_wallet e.account_type
      then (if is_credit e.direction then units e.amount else pos 0 -ℤ units e.amount)
      else pos 0

  abbrev pub ledger_units : ℕ → List LedgerEntry → ℤ
  ledger_units wallet_id [] = pos 0
  ledger_units wallet_id (e ∷ es) = entry_units wallet_id e +ℤ ledger_units wallet_id es

  pub ledger_units-append :
      (wallet_id : ℕ) (es fs : List LedgerEntry)
      → ledger_units wallet_id (es ++ fs) ≡ ledger_units wallet_id es +ℤ ledger_units wallet_id fs
  ledger_units-append wallet_id [] fs = omega int_laws
  ledger_units-append wallet_id (e ∷ es) fs =
      rw (ledger_units-append wallet_id es fs) (omega int_laws)

  -- The wallet shows what its ledger says, in whole columns, and is not overdrawn.
  pub record IsReconciled (db : Db) (w : Wallet) : Type 0 where
    pub stored : D.store w.balance ≡ w.balance
    pub agrees : units w.balance ≡ ledger_units w.id db.ledger
    pub solvent : pos 0 ≤ℤ units w.balance

  credits_less_debits :
      (wallet_id : ℕ) (es : List LedgerEntry)
      → total (map units (entry_amounts wallet_id true es))
        ≡ ledger_units wallet_id es +ℤ total (map units (entry_amounts wallet_id false es))
  credits_less_debits wallet_id [] = omega int_laws
  credits_less_debits wallet_id (e ∷ es) = grind (int_laws, credits_less_debits wallet_id es)

  -- `sumLedgerBalance` computes the ledger's sum, where the difference is below the precision.
  pub sum_ledger_balance_lem :
      (wallet_id : ℕ) (db : Db)
      → Fits capacity (ledger_units wallet_id db.ledger)
      → units (sum_ledger_balance wallet_id db) ≡ ledger_units wallet_id db.ledger
  unfolding sum_ledger_balance
  sum_ledger_balance_lem wallet_id db h =
      let split : units (sum_or_zero (entry_amounts wallet_id true db.ledger))
            -ℤ units (sum_or_zero (entry_amounts wallet_id false db.ledger))
          ≡ ledger_units wallet_id db.ledger =
        rw
          (
            units_sum (entry_amounts wallet_id true db.ledger),
            units_sum (entry_amounts wallet_id false db.ledger),
            credits_less_debits wallet_id db.ledger,
          )
          (omega int_laws) in
      units_sub _ _ (rw split h) ∙ split
