-- ===== src/Trading/Execution.antt =====
-- Broker-confirmed execution, src/modules/trading/services/execution-engine.service.ts with
-- broker-gateway.service.ts, and `executeQueuedOrder` of trading.service.ts beside them. The broker's
-- adapter is an argument, as it is of the gateway; a submission leaves out the stock's symbol, a fill
-- its reference and its reason. The platform's share of a commission is an argument too.
pub mod Fills
use pine_backend.Wallet.Reservations.{release_reservation}
use pine_backend.Base.{
  ℕ, suc, Bool, true, false, not, ◌&&◌, Option, none, some, List, [], ◌∷◌, ◌++◌, ◌==◌,
  if◌then◌else◌, Tx, Result, ok, err, pure, throw, gets, modify, throw_if, or_throw, ◌>>=◌, ◌>>◌,
}
use pine_backend.Decimals.{Decimals}
use pine_backend.Store.Errors.{Error, order_not_found, not_queued, no_price}
use pine_backend.Store.Rows.{
  Db, Order, OrderType, market, limit, Stock, Trade, OrderExecution, AuditAction,
  order_submitted_to_broker, order_rejected_by_broker, order_filled, order_partially_filled,
  order_executed_by_broker,
}
use pine_backend.Store.Lookups.{
  find_order_by_id, find_stock_by_id, create_trade_audit, update_order_status,
}
use pine_backend.Trading.Lifecycle.{
  OrderLifecycleStatus, submitted, accepted, rejected, filled, partially_filled, same_status,
}
use pine_backend.Trading.Fees.{Side, TradingFees, ResolvedFeePolicy, trading_fees_under}
use pine_backend.Trading.Orders.{assert_step}
use pine_backend.Trading.Settlement.{OrderExecutedEvent, map_option}

pub data FillStatus : Type 0 where
  full partial refused : FillStatus

abbrev pub is_refused : FillStatus → Bool
is_refused refused = true
is_refused _ = false

module _ ⦃D : Decimals⦄ where
  open D use {Decimal, Number, add, gte, of_number, to_number, store}

  pub record BrokerOrderSubmission : Type 0 where
    pub order_id : ℕ
    pub side : Side
    pub type : OrderType
    pub quantity : Number
    pub limit_price : Option Number
    pub estimated_price : Number

  pub record BrokerFillResult : Type 0 where
    pub filled_quantity : Number
    pub fill_price : Number
    pub status : FillStatus

  -- the sandbox adapter, and the exchange's one until its dashboard answers
  abbrev pub fill_at_estimate : BrokerOrderSubmission → BrokerFillResult
  fill_at_estimate s = record {
    filled_quantity = s.quantity;
    fill_price = s.estimated_price;
    status = full;
  }

  -- What `execute` emits, and with it the status of the order.
  pub data Outcome : Type 0 where
    declined : Outcome
    executed : OrderExecutedEvent → Outcome

  abbrev pub submission_of : Order → Decimal → BrokerOrderSubmission
  submission_of o estimated_price = record {
    order_id = o.id;
    side = o.side;
    type = o.type;
    quantity = to_number o.quantity;
    limit_price = map_option to_number o.limit_price;
    estimated_price = to_number estimated_price;
  }

  abbrev pub audit_step :
      Order → AuditAction → OrderLifecycleStatus → OrderLifecycleStatus → Db → Db
  audit_step o action from to = create_trade_audit (record {
    order_id = o.id;
    user_id = o.user_id;
    action = action;
    from_status = some from;
    to_status = some to;
  })

  abbrev create_trade :
      (Decimal → Decimal) → Order → TradingFees → Decimal → Decimal → Tx Error Db ℕ
  create_trade platform_fee o fees price quantity = do
    id ← gets (λ (db : Db). db.next)
    modify λ (db : Db). record db {
      trades =
          db.trades
          ++ (record {
            id = id;
            order_id = o.id;
            quantity = store quantity;
            price = store price;
            fee = store fees.total_fees;
            commission = store fees.broker_commission;
            levies = store (add (add fees.sec_levy fees.mse_levy) fees.withholding_tax);
            platform_fee = store (platform_fee fees.broker_commission);
          }
              ∷ []);
      executions =
          db.executions
          ++ (record {
            order_id = o.id;
            quantity = store quantity;
            price = store price;
            fee = store fees.total_fees;
          }
              ∷ []);
      next = suc db.next;
    }
    pure id

  abbrev pub fill_status : Order → Decimal → OrderLifecycleStatus
  fill_status o quantity = if gte quantity o.quantity then filled else partially_filled

  abbrev fill_action : Order → Decimal → AuditAction
  fill_action o quantity = if gte quantity o.quantity then order_filled else order_partially_filled

  -- the columns that a fill writes
  abbrev pub filled_order : TradingFees → Decimal → Decimal → Order → Order
  filled_order fees price quantity o = record o {
    filled_quantity = store quantity;
    average_fill_price = some (store price);
    total_fees = store fees.total_fees;
    total_cost = store fees.total_cost;
  }

  abbrev pub event_of : Order → TradingFees → Decimal → Decimal → ℕ → OrderExecutedEvent
  event_of o fees price quantity trade_id = record {
    order_id = o.id;
    user_id = o.user_id;
    stock_id = o.stock_id;
    side = o.side;
    quantity = to_number quantity;
    price = to_number price;
    total_fees = to_number fees.total_fees;
    total_cost = to_number fees.total_cost;
    trade_id = trade_id;
  }

  abbrev submit : Order → Tx Error Db (Unit {0})
  submit o =
      if same_status o.status submitted
      then pure tt
      else (assert_step o.status submitted
          >> modify (update_order_status o.id submitted (λ (r : Order). r)))

  abbrev record_fill :
      ResolvedFeePolicy → (Decimal → Decimal) → Order → Decimal → Decimal → Tx Error Db Outcome
  record_fill policy platform_fee o price quantity = do
    trade_id ←
        create_trade platform_fee o (trading_fees_under policy price quantity o.side) price quantity
    modify (
        update_order_status o.id (fill_status o quantity)
          (filled_order (trading_fees_under policy price quantity o.side) price quantity))
    modify (audit_step o (fill_action o quantity) accepted (fill_status o quantity))
    pure (
        executed
          (event_of o (trading_fees_under policy price quantity o.side) price quantity trade_id))

  -- the listener of the event releases the hold
  unfoldable pub decline : Order → Tx Error Db Outcome
  unfolding release_reservation
  decline o = do
    modify (update_order_status o.id rejected (λ (r : Order). r))
    modify (audit_step o order_rejected_by_broker accepted rejected)
    modify (release_reservation o.id)
    pure declined

  -- `getLatestClosePrice`
  abbrev pub latest_close : ℕ → Db → Option Decimal
  latest_close stock_id db = elim (find_stock_by_id stock_id db) [
    | none ↦ none
    | some s ↦ s.latest_price
  ]

  -- the limit of a LIMIT order, or else the latest close
  abbrev pub execution_price : Order → Db → Option Decimal
  execution_price o db = elim o.type [
    | market ↦ latest_close o.stock_id db
    | limit ↦ elim o.limit_price [ none ↦ latest_close o.stock_id db | some p ↦ some p ]
  ]

  module _ (adapter : BrokerOrderSubmission → BrokerFillResult) (policy : ResolvedFeePolicy)
      (platform_fee : Decimal → Decimal) where
    -- what `execute` does with the broker's answer
    unfoldable pub respond : Order → BrokerFillResult → Tx Error Db Outcome
    unfolding decline
    respond o answer =
        if is_refused answer.status
        then decline o
        else record_fill policy platform_fee o (of_number answer.fill_price)
            (of_number answer.filled_quantity)

    -- `ExecutionEngineService.execute`
    unfoldable pub execute : ℕ → Decimal → Tx Error Db Outcome
    execute order_id estimated_price = do
      o ← or_throw (← gets (find_order_by_id order_id)) order_not_found
      submit o
      modify (audit_step o order_submitted_to_broker o.status submitted)
      modify (update_order_status o.id accepted (λ (r : Order). r))
      respond o (adapter (submission_of o estimated_price))

    -- `executeQueuedOrder`
    unfoldable pub execute_queued_order : ℕ → Tx Error Db Outcome
    unfolding execute
    execute_queued_order order_id = do
      o ← or_throw (← gets (find_order_by_id order_id)) order_not_found
      throw_if (not (same_status o.status submitted)) not_queued
      price ← or_throw (← gets (execution_price o)) no_price
      modify (audit_step o order_executed_by_broker submitted submitted)
      execute order_id price
