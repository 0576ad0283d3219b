-- ===== src/Trading/Validation/Cover.antt =====
-- What an order that passes validation is covered by: a purchase by free money, a sale by free shares.
use pine_backend.Base.{
  ℕ, ◌≡◌, true, false, not, arith, some, Bool, Result, ok, err, Option-cases, Bool-cases, inl, inr,
  if◌then◌else◌, pos, ◌+ℤ◌, ◌-ℤ◌, ◌≤ℤ◌, ◌<ℤ◌, ltb_ℤ, not_ltb_ℤ, int_laws,
}
use pine_backend.Decimals.{Decimals, IsExact, Fits, nought}
use pine_backend.Store.Rows.{Db, Wallet}
use pine_backend.Store.Lookups.{
  find_wallet_by_user_id, find_stock_by_id, sum_active_reservations, sum_pending_withdrawals,
}
use pine_backend.Trading.Fees.{buy, sell, TradingFees, ResolvedFeePolicy}
use pine_backend.Trading.Validation.{
  OrderToValidate, validate, check_sufficient_funds, check_sufficient_shares, held_shares,
  committed_shares,
}

abbrev is_ok : {X A : Type 0} → Result X A → Bool
is_ok (ok a) = true
is_ok (err e) = false

module _ ⦃D : Decimals⦄ (E : IsExact) where
  open D use {Decimal, lt, sub, greatest, gte}
  open E use {units, capacity, units_sub, lt_units, gte_units, units_greatest, units_nought}

  free_shares :
      (v : OrderToValidate) (db : Db)
      → is_ok (check_sufficient_shares v db) ≡ true
      → pos 0 <ℤ units v.quantity
      → Fits capacity (units (held_shares v.user_id v.stock_id db) -ℤ units (committed_shares v db))
      → units (committed_shares v db) +ℤ units v.quantity
        ≤ℤ units (held_shares v.user_id v.stock_id db)
  unfolding check_sufficient_shares
  free_shares v db h positive fits =
      let held = held_shares v.user_id v.stock_id db in
      let committed = committed_shares v db in
      let enough : gte (greatest (sub held committed) nought) v.quantity ≡ true = ground arith in
      let test = gte_units (greatest (sub held committed) nought) v.quantity in
      let most = units_greatest (sub held committed) nought in
      let room = units_sub held committed fits in
      let zero = units_nought in
      let known : not (
            ltb_ℤ
              (if ltb_ℤ (units held -ℤ units committed) (pos 0)
                then pos 0
                else units held -ℤ units committed)
              (units v.quantity))
          ≡ true =
        rw (test, most, room, zero) at enough in
      elim (Bool-cases (ltb_ℤ (units held -ℤ units committed) (pos 0))) [
        | inl under ↦ grind int_laws
        | inr over ↦ grind int_laws
      ]

  free_money :
      (user_id : ℕ) (cost : Decimal) (w : Wallet) (db : Db)
      → find_wallet_by_user_id user_id db ≡ some w
      → is_ok (check_sufficient_funds user_id cost db) ≡ true
      → Fits capacity (units w.balance -ℤ units (sum_active_reservations w.id db))
      → Fits capacity (
          units w.balance
          -ℤ units (sum_active_reservations w.id db)
          -ℤ units (sum_pending_withdrawals w.id db))
      → units cost
        ≤ℤ units w.balance
          -ℤ units (sum_active_reservations w.id db)
          -ℤ units (sum_pending_withdrawals w.id db)
  unfolding check_sufficient_funds
  free_money user_id cost w db found h fits fits' =
      let reserved = sum_active_reservations w.id db in
      let withdrawals = sum_pending_withdrawals w.id db in
      let passed : lt (sub (sub w.balance reserved) withdrawals) cost ≡ false = ground arith in
      let first = units_sub w.balance reserved fits in
      let second = units_sub (sub w.balance reserved) withdrawals (rw first fits') in
      let test : ltb_ℤ (units w.balance -ℤ units reserved -ℤ units withdrawals) (units cost)
          ≡ false =
        rw (lt_units, second, first) at passed in
      omega (
        int_laws,
        not_ltb_ℤ (units w.balance -ℤ units reserved -ℤ units withdrawals) (units cost) test,
      )

  module _ (policy : ResolvedFeePolicy) (blocked : ℕ → ℕ → Decimal → Db → Bool) where
    checks_shares :
        (v : OrderToValidate) (db db' : Db) (out : Decimal × TradingFees)
        → v.side ≡ sell
        → validate policy blocked v db ≡ ok (out, db')
        → is_ok (check_sufficient_shares v db) ≡ true
    unfolding validate
    checks_shares v db db' out side h = elim (Option-cases (find_stock_by_id v.stock_id db)) [
      | inl missing ↦ ground arith
      | inr (stock, listed) ↦ elim (Option-cases (find_wallet_by_user_id v.user_id db)) [
        | inl gone ↦ ground arith
        | inr (w, found) ↦ ground arith
      ]
    ]

    checks_funds :
        (v : OrderToValidate) (db db' : Db) (price : Decimal) (fees : TradingFees)
        → v.side ≡ buy
        → validate policy blocked v db ≡ ok ((price, fees), db')
        → is_ok (check_sufficient_funds v.user_id fees.total_cost db) ≡ true
    unfolding validate
    checks_funds v db db' price fees side h = elim (Option-cases (find_stock_by_id v.stock_id db)) [
      | inl missing ↦ ground arith
      | inr (stock, listed) ↦ elim (Option-cases (find_wallet_by_user_id v.user_id db)) [
        | inl gone ↦ ground arith
        | inr (w, found) ↦ ground arith
      ]
    ]

    -- A sale that passes validation is covered: with the shares that the user's other open sell
    -- orders hold, it does not exceed what the user owns of the stock, where its quantity is positive
    -- and the amounts are below the precision.
    pub validate_sell_covered :
        (v : OrderToValidate) (db db' : Db) (price : Decimal) (fees : TradingFees)
        → v.side ≡ sell
        → pos 0 <ℤ units v.quantity
        → Fits capacity
            (units (held_shares v.user_id v.stock_id db) -ℤ units (committed_shares v db))
        → validate policy blocked v db ≡ ok ((price, fees), db')
        → units (committed_shares v db) +ℤ units v.quantity
          ≤ℤ units (held_shares v.user_id v.stock_id db)
    validate_sell_covered v db db' price fees side positive fits h =
        free_shares v db (checks_shares v db db' (price, fees) side h) positive fits

    -- A purchase that passes validation is covered: its full cost does not exceed the balance less
    -- the active holds and the withdrawals in flight, where these sums are below the precision.
    pub validate_buy_covered :
        (v : OrderToValidate) (w : Wallet) (db db' : Db) (price : Decimal) (fees : TradingFees)
        → v.side ≡ buy
        → find_wallet_by_user_id v.user_id db ≡ some w
        → Fits capacity (units w.balance -ℤ units (sum_active_reservations w.id db))
        → Fits capacity (
            units w.balance
            -ℤ units (sum_active_reservations w.id db)
            -ℤ units (sum_pending_withdrawals w.id db))
        → validate policy blocked v db ≡ ok ((price, fees), db')
        → units fees.total_cost
          ≤ℤ units w.balance
            -ℤ units (sum_active_reservations w.id db)
            -ℤ units (sum_pending_withdrawals w.id db)
    validate_buy_covered v w db db' price fees side found fits fits' h =
        free_money v.user_id fees.total_cost w db found (checks_funds v db db' price fees side h)
          fits fits'
