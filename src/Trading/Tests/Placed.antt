-- ===== src/Trading/Tests/Placed.antt =====
-- Orders placed, checked, cancelled and executed.
use pine_backend.Base.{
  ℕ, ◌≡◌, refl, Bool, some, none, true, false, ℤ, pos, ◌+ℤ◌, ◌-ℤ◌, ◌*ℤ◌, quot_ℤ, ◌≤ℤ◌, ok, err,
  arith, ◌⊎◌, ◌≢◌,
}
use pine_backend.Decimals.{ten_thousandths, ten_thousandths-IsExact}
use pine_backend.Store.Keys.{client}
use pine_backend.Store.Errors.{order_not_found, not_cancellable, not_queued}
use pine_backend.Store.Rows.{Db, Order, market}
use pine_backend.Store.Lookups.{find_order_by_id, sum_active_reservations, sum_pending_withdrawals}
use pine_backend.Store.Example.{a_db, a_wallet, an_order}
use pine_backend.Trading.Lifecycle.{submitted, cancelled}
use pine_backend.Trading.Fees.{
  buy, sell, TradingFees, ResolvedFeePolicy, default_policy, trading_fees_under,
}
use pine_backend.Trading.Orders.{OrderRequest, create_order, cancel_order}
use pine_backend.Trading.Orders.Repeats.{create_order_twice, before_broker, cancel_order_lem}
use pine_backend.Trading.Execution.{
  Outcome, declined, executed, execute, execute_queued_order, respond, fill_at_estimate,
  submission_of,
}
use pine_backend.Trading.Execution.Fills.{EndsIn, execute-ends, execute_queued_order_twice}
use pine_backend.Trading.Settlement.{OrderExecutedEvent}
use pine_backend.Trading.Validation.{
  OrderToValidate, validate, held_shares, committed_shares, check_sufficient_funds,
  check_sufficient_shares,
}
use pine_backend.Trading.Validation.Cover.{validate_sell_covered, validate_buy_covered}

abbrev a_request : OrderRequest
a_request = record {
  user_id = 1;
  stock_symbol = 7;
  side = buy;
  type = market;
  quantity = pos 20_000;
  limit_price = none;
  idempotency_key = some (client 9);
}

abbrev placed_db : Db
unfolding create_order
placed_db = elim (create_order 5 a_request a_db) [ ok (v, db) ↦ db | err e ↦ a_db ]

abbrev placed_order : Order
unfolding create_order
placed_order = elim (create_order 5 a_request a_db) [
  | ok (v, db) ↦ v
  | err e ↦ an_order 0 buy submitted 0
]

placed : create_order 5 a_request a_db ≡ ok (placed_order, placed_db)
unfolding create_order
placed = refl

create_order_twice_example : create_order 8 a_request placed_db ≡ ok (placed_order, placed_db)
create_order_twice_example =
    create_order_twice 5 8 a_request a_request a_db placed_db placed_order (client 9) refl refl refl
      placed

cancel_order_lem_example :
    ((a_wallet.user_id ≡ 1)
      × (before_broker submitted ≡ true)
      × ((db' : Db) × (cancel_order 1 30 a_db ≡ ok (tt, db'))
          × (find_order_by_id 30 db' ≡ some (an_order 30 buy cancelled 20_000))
          × (db'.wallets ≡ a_db.wallets)
          × (db'.reservations ≡ a_db.reservations)
          × (db'.holdings ≡ a_db.holdings)))
    ⊎ (((a_wallet.user_id ≢ 1) × (cancel_order 1 30 a_db ≡ err order_not_found))
        ⊎ ((a_wallet.user_id ≡ 1)
            × (before_broker submitted ≡ false)
            × (cancel_order 1 30 a_db ≡ err not_cancellable)))
cancel_order_lem_example = cancel_order_lem 1 30 a_db (an_order 30 buy submitted 20_000) refl

abbrev no_share : ℤ → ℤ
no_share c = pos 0

abbrev executed_db : Db
unfolding execute_queued_order execute respond trading_fees_under ◌+ℤ◌ ◌-ℤ◌ ◌*ℤ◌ quot_ℤ
executed_db = elim (execute_queued_order fill_at_estimate default_policy no_share 30 a_db) [
  | ok (v, db) ↦ db
  | err e ↦ a_db
]

abbrev outcome : Outcome
unfolding execute_queued_order execute respond trading_fees_under ◌+ℤ◌ ◌-ℤ◌ ◌*ℤ◌ quot_ℤ
outcome = elim (execute_queued_order fill_at_estimate default_policy no_share 30 a_db) [
  | ok (v, db) ↦ v
  | err e ↦ declined
]

executed_once :
    execute_queued_order fill_at_estimate default_policy no_share 30 a_db
    ≡ ok (outcome, executed_db)
unfolding execute_queued_order execute respond trading_fees_under ◌+ℤ◌ ◌-ℤ◌ ◌*ℤ◌ quot_ℤ
executed_once = refl

execute_queued_order_twice_example :
    execute_queued_order fill_at_estimate default_policy no_share 30 executed_db ≡ err not_queued
execute_queued_order_twice_example =
    execute_queued_order_twice fill_at_estimate default_policy no_share 30 a_db executed_db outcome
      executed_once

abbrev filled_db : Db
unfolding execute respond trading_fees_under ◌+ℤ◌ ◌-ℤ◌ ◌*ℤ◌ quot_ℤ
filled_db = elim (execute fill_at_estimate default_policy no_share 30 (pos 500_000) a_db) [
  | ok (v, db) ↦ db
  | err e ↦ a_db
]

filled_once :
    execute fill_at_estimate default_policy no_share 30 (pos 500_000) a_db ≡ ok (outcome, filled_db)
unfolding execute respond trading_fees_under outcome ◌+ℤ◌ ◌-ℤ◌ ◌*ℤ◌ quot_ℤ
filled_once = refl

execute-ends_example :
    (o : Order) × (find_order_by_id 30 filled_db ≡ some o)
    × EndsIn
        (fill_at_estimate (submission_of (an_order 30 buy submitted 20_000) (pos 500_000)))
        (pos 20_000)
        outcome
        o.status
execute-ends_example =
    execute-ends fill_at_estimate default_policy no_share 30 (pos 500_000)
      (an_order 30 buy submitted 20_000) a_db filled_db outcome refl filled_once

abbrev a_sell : OrderToValidate
a_sell = record {
  user_id = 1;
  stock_id = 20;
  side = sell;
  type = market;
  quantity = pos 30_000;
  limit_price = none;
  kyc_approved = true;
  order_id = 32;
}

abbrev a_buy : OrderToValidate
a_buy = record a_sell { side = buy; quantity = pos 20_000 }

abbrev unblocked : ℕ → ℕ → ℤ → Db → Bool
unblocked u s g db = false

abbrev free_policy : ResolvedFeePolicy
free_policy = record default_policy { commission_enabled = false }

abbrev fees_for : OrderToValidate → TradingFees
unfolding trading_fees_under ◌+ℤ◌ ◌-ℤ◌ ◌*ℤ◌ quot_ℤ
fees_for v = trading_fees_under free_policy (pos 500_000) v.quantity v.side

sell_passes : validate free_policy unblocked a_sell a_db ≡ ok ((pos 500_000, fees_for a_sell), a_db)
unfolding validate trading_fees_under check_sufficient_shares ◌+ℤ◌ ◌-ℤ◌ ◌*ℤ◌ quot_ℤ fees_for
sell_passes = refl

buy_passes : validate free_policy unblocked a_buy a_db ≡ ok ((pos 500_000, fees_for a_buy), a_db)
unfolding validate trading_fees_under check_sufficient_funds sum_active_reservations
    sum_pending_withdrawals ◌+ℤ◌ ◌-ℤ◌ ◌*ℤ◌ quot_ℤ fees_for
buy_passes = refl

validate_sell_covered_example : committed_shares a_sell a_db +ℤ pos 30_000 ≤ℤ held_shares 1 20 a_db
unfolding ◌+ℤ◌ ◌-ℤ◌
validate_sell_covered_example =
    validate_sell_covered ten_thousandths-IsExact free_policy unblocked a_sell a_db a_db
      (pos 500_000) (fees_for a_sell) refl (omega arith) (omega arith) sell_passes

validate_buy_covered_example :
    (fees_for a_buy).total_cost
    ≤ℤ a_wallet.balance -ℤ sum_active_reservations 10 a_db -ℤ sum_pending_withdrawals 10 a_db
unfolding sum_active_reservations sum_pending_withdrawals ◌+ℤ◌ ◌-ℤ◌
validate_buy_covered_example =
    validate_buy_covered ten_thousandths-IsExact free_policy unblocked a_buy a_wallet a_db a_db
      (pos 500_000) (fees_for a_buy) refl refl (omega arith) (omega arith) buy_passes

abbrev a_fill : OrderExecutedEvent
a_fill = record {
  order_id = 30;
  user_id = 1;
  stock_id = 20;
  side = buy;
  quantity = pos 20_000;
  price = pos 500_000;
  total_fees = pos 5_002_000;
  total_cost = pos 6_002_000;
  trade_id = 100;
}

filled_event :
    execute fill_at_estimate default_policy no_share 30 (pos 500_000) a_db
    ≡ ok (executed a_fill, filled_db)
unfolding execute respond trading_fees_under ◌+ℤ◌ ◌-ℤ◌ ◌*ℤ◌ quot_ℤ
filled_event = refl
