-- ===== src/Trading/Validation/Reads.antt =====
-- Validation and the risk checks only read.
use pine_backend.Base.{ℕ, Bool, ◌≡◌, ok, arith, Option-cases, inl, inr}
use pine_backend.Decimals.{Decimals}
use pine_backend.Store.Rows.{Db}
use pine_backend.Store.Lookups.{find_wallet_by_user_id, find_stock_by_id}
use pine_backend.Trading.Fees.{TradingFees, ResolvedFeePolicy}
use pine_backend.Trading.Validation.{
  OrderToValidate, validate, check_sufficient_funds, check_sufficient_shares,
}
use pine_backend.Trading.Risk.{check_risk}

module _ ⦃D : Decimals⦄ where
  open D use {Decimal}

  pub validate-reads :
      (policy : ResolvedFeePolicy) (blocked : ℕ → ℕ → Decimal → Db → Bool) (v : OrderToValidate)
      (db db' : Db) (out : Decimal × TradingFees)
      → validate policy blocked v db ≡ ok (out, db')
      → db' ≡ db
  unfolding validate check_sufficient_funds check_sufficient_shares
  validate-reads policy blocked v db db' out h =
      elim (Option-cases (find_stock_by_id v.stock_id db)) [
        | inl missing ↦ ground arith
        | inr (stock, listed) ↦ elim (Option-cases (find_wallet_by_user_id v.user_id db)) [
          | inl gone ↦ ground arith
          | inr (w, found) ↦ ground arith
        ]
      ]

  pub check_risk-reads :
      (midnight now user_id : ℕ) (gross : Decimal) (db db' : Db) (u : Unit {0})
      → check_risk midnight now user_id gross db ≡ ok (u, db')
      → db' ≡ db
  unfolding check_risk
  check_risk-reads midnight now user_id gross db db' u h = ground arith
