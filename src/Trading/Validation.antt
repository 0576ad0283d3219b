-- ===== src/Trading/Validation.antt =====
-- The pre-trade checks, src/modules/trading/services/validation.service.ts. The fee schedule of the
-- broker and the answer of its concentration check (RiskPolicyService) are arguments.
pub mod Cover
pub mod Reads
use pine_backend.Base.{
  ℕ, Bool, true, false, not, ◌&&◌, Option, none, some, List, [], ◌∷◌, filter, map, ◌==◌,
  if◌then◌else◌, get_or, Tx, pure, throw, gets, throw_if, or_throw, ◌>>=◌, ◌>>◌,
}
use pine_backend.Decimals.{Decimals, nought, whole, sum_or_zero}
use pine_backend.Store.Errors.{
  Error, stock_unavailable, no_price, kyc_required, wallet_not_found, wallet_frozen,
  quantity_too_small, value_too_large, bad_limit_price, insufficient_funds, concentration_exceeded,
  no_shares, shares_reserved, not_enough_shares,
}
use pine_backend.Store.Rows.{Db, Order, OrderType, market, limit, Wallet, Holding}
use pine_backend.Store.Lookups.{
  find_wallet_by_user_id, find_stock_by_id, find_user_holding, sum_active_reservations,
  sum_pending_withdrawals,
}
use pine_backend.Trading.Lifecycle.{
  OrderLifecycleStatus, pending_validation, validated, submitted, accepted, partially_filled, has,
}
use pine_backend.Trading.Fees.{Side, buy, sell, TradingFees, ResolvedFeePolicy, trading_fees_under}

abbrev pub is_sell : Side → Bool
is_sell sell = true
is_sell buy = false

-- the statuses in which a sell order holds its shares
abbrev pub open_sell_states : List OrderLifecycleStatus
open_sell_states = pending_validation ∷ validated ∷ submitted ∷ accepted ∷ partially_filled ∷ []

module _ ⦃D : Decimals⦄ where
  open D use {Decimal, sub, lt, lte, gt, gte, greatest}

  pub record OrderToValidate : Type 0 where
    pub user_id : ℕ
    pub stock_id : ℕ
    pub side : Side
    pub type : OrderType
    pub quantity : Decimal
    pub limit_price : Option Decimal
    pub kyc_approved : Bool
    pub order_id : ℕ

  -- `checkStockActive`
  abbrev check_stock_active : ℕ → Tx Error Db Decimal
  check_stock_active stock_id = do
    stock ← or_throw (← gets (find_stock_by_id stock_id)) stock_unavailable
    throw_if (not stock.is_active) stock_unavailable
    or_throw stock.latest_price no_price

  -- `checkAccountNotFrozen`
  abbrev check_account_not_frozen : ℕ → Tx Error Db (Unit {0})
  check_account_not_frozen user_id = do
    w ← or_throw (← gets (find_wallet_by_user_id user_id)) wallet_not_found
    throw_if w.is_frozen wallet_frozen

  -- `getOrderPrice`
  abbrev get_order_price : OrderType → Option Decimal → Decimal → Tx Error Db Decimal
  get_order_price market limit_price latest = pure latest
  get_order_price limit none latest = throw bad_limit_price
  get_order_price limit (some p) latest = if lte p nought then throw bad_limit_price else pure p

  -- `checkSufficientFunds`: balance less active holds less withdrawals in flight
  unfoldable pub check_sufficient_funds : ℕ → Decimal → Tx Error Db (Unit {0})
  check_sufficient_funds user_id total_cost = do
    w ← or_throw (← gets (find_wallet_by_user_id user_id)) wallet_not_found
    reserved ← gets (sum_active_reservations w.id)
    withdrawals ← gets (sum_pending_withdrawals w.id)
    throw_if (lt (sub (sub w.balance reserved) withdrawals) total_cost) insufficient_funds

  abbrev pub held_shares : ℕ → ℕ → Db → Decimal
  held_shares user_id stock_id db = elim (find_user_holding user_id stock_id db) [
    | none ↦ nought
    | some h ↦ h.quantity
  ]

  abbrev pub is_open_sell : OrderToValidate → Order → Bool
  is_open_sell v o =
      o.user_id == v.user_id
      && o.stock_id == v.stock_id
      && is_sell o.side
      && has open_sell_states o.status
      && not (o.id == v.order_id)

  -- the other open sells of the stock
  abbrev pub committed_shares : OrderToValidate → Db → Decimal
  committed_shares v db =
      sum_or_zero (map (λ (o : Order). o.quantity) (filter (is_open_sell v) db.orders))

  abbrev shares_error : Decimal → Decimal → Error
  shares_error held committed =
      if lte held nought
      then no_shares
      else (if gt committed nought then shares_reserved else not_enough_shares)

  -- `checkSufficientShares`
  unfoldable pub check_sufficient_shares : OrderToValidate → Tx Error Db (Unit {0})
  check_sufficient_shares v = do
    held ← gets (held_shares v.user_id v.stock_id)
    committed ← gets (committed_shares v)
    throw_if (not (gte (greatest (sub held committed) nought) v.quantity))
        (shares_error held committed)

  module _ (policy : ResolvedFeePolicy) (blocked : ℕ → ℕ → Decimal → Db → Bool) where
    abbrev check_cover : OrderToValidate → TradingFees → Side → Tx Error Db (Unit {0})
    check_cover v fees buy = do
      check_sufficient_funds v.user_id fees.total_cost
      throw_if (← gets (blocked v.user_id v.stock_id fees.gross_value)) concentration_exceeded
    check_cover v fees sell = check_sufficient_shares v

    -- `validate`
    unfoldable pub validate : OrderToValidate → Tx Error Db (Decimal × TradingFees)
    unfolding trading_fees_under
    validate v = do
      latest ← check_stock_active v.stock_id
      throw_if (not v.kyc_approved) kyc_required
      check_account_not_frozen v.user_id
      throw_if (lt v.quantity (whole 1)) quantity_too_small
      price ← get_order_price v.type v.limit_price latest
      throw_if (gt (trading_fees_under policy price v.quantity v.side).gross_value (whole 50000000))
          value_too_large
      check_cover v (trading_fees_under policy price v.quantity v.side) v.side
      pure (price, trading_fees_under policy price v.quantity v.side)
