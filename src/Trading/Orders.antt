-- ===== src/Trading/Orders.antt =====
-- Placing and cancelling orders, src/modules/trading/services/order.service.ts, with `createOrder` of
-- src/modules/trading/repositories/trading.repository.ts. The column `brokerId`, the columns for the
-- times of a status, and an audit's metadata are left out.
pub mod Repeats
pub mod Writes
use pine_backend.Base.{
  ℕ, suc, Bool, true, false, not, ◌&&◌, ◌||◌, Option, none, some, List, [], ◌∷◌, ◌++◌, ◌==◌,
  if◌then◌else◌, find?, Tx, Result, ok, err, pure, throw, gets, modify, throw_if, or_throw, ◌>>=◌,
  ◌>>◌,
}
use pine_backend.Decimals.{Decimals, nought}
use pine_backend.Store.Keys.{Key, has_key}
use pine_backend.Store.Errors.{
  Error, order_not_found, stock_not_found, not_cancellable, invalid_transition,
}
use pine_backend.Store.Rows.{Db, Order, OrderType, Stock, order_created, order_cancelled}
use pine_backend.Store.Lookups.{find_order_by_id, create_trade_audit, update_order_status}
use pine_backend.Trading.Lifecycle.{
  OrderLifecycleStatus, draft, cancelled, has, cancellable_states, assert_transition,
}
use pine_backend.Trading.Fees.{Side}

module _ ⦃D : Decimals⦄ where
  open D use {Decimal, Number, of_number, store, literal, num_lt}

  pub record OrderRequest : Type 0 where
    pub user_id : ℕ
    pub stock_symbol : ℕ
    pub side : Side
    pub type : OrderType
    pub quantity : Number
    pub limit_price : Option Number
    pub idempotency_key : Option Key

  abbrev pub find_order_by_idempotency_key : ℕ → Key → Db → Option Order
  find_order_by_idempotency_key user_id key db =
      find? (λ (o : Order). o.user_id == user_id && has_key key o.idempotency_key) db.orders

  abbrev pub find_stock_by_symbol : ℕ → Db → Option Stock
  find_stock_by_symbol symbol db = find? (λ (s : Stock). s.symbol == symbol) db.stocks

  -- `data.limitPrice ? new Decimal(data.limitPrice) : undefined`
  abbrev pub limit_of : Option Number → Option Decimal
  limit_of none = none
  limit_of (some n) =
      if num_lt (literal 0 0) n || num_lt n (literal 0 0) then some (of_number n) else none

  abbrev stored_limit : Option Decimal → Option Decimal
  stored_limit none = none
  stored_limit (some d) = some (store d)

  -- the row that `createOrder` writes
  abbrev pub new_order : ℕ → ℕ → ℕ → OrderRequest → Order
  new_order now id stock_id request = record {
    id = id;
    user_id = request.user_id;
    stock_id = stock_id;
    side = request.side;
    type = request.type;
    status = draft;
    quantity = store (of_number request.quantity);
    filled_quantity = nought;
    limit_price = stored_limit (limit_of request.limit_price);
    average_fill_price = none;
    total_fees = nought;
    total_cost = nought;
    idempotency_key = request.idempotency_key;
    created_at = now;
  }

  abbrev pub insert_order : ℕ → ℕ → OrderRequest → Tx Error Db Order
  insert_order now stock_id request = do
    id ← gets (λ (db : Db). db.next)
    modify λ (db : Db). record db {
      orders = db.orders ++ (new_order now id stock_id request ∷ []);
      next = suc db.next;
    }
    modify (
        create_trade_audit (record {
          order_id = id;
          user_id = request.user_id;
          action = order_created;
          from_status = none;
          to_status = some draft;
        }))
    pure (new_order now id stock_id request)

  abbrev pub existing_order : OrderRequest → Db → Option Order
  existing_order request db = elim request.idempotency_key [
    | none ↦ none
    | some key ↦ find_order_by_idempotency_key request.user_id key db
  ]

  -- `createOrder`: the order of the key, or a new draft
  unfoldable pub create_order : ℕ → OrderRequest → Tx Error Db Order
  create_order now request db = elim (existing_order request db) [
    | some o ↦ pure o db
    | none ↦
        (do
          stock ← or_throw (← gets (find_stock_by_symbol request.stock_symbol)) stock_not_found
          insert_order now stock.id request)
          db
  ]

  -- `assertTransition`, its error as one of the services'
  abbrev pub assert_step : OrderLifecycleStatus → OrderLifecycleStatus → Tx Error Db (Unit {0})
  assert_step from to db = elim (assert_transition from to) [
    | ok u ↦ pure tt db
    | err e ↦ throw invalid_transition db
  ]

  -- `cancelOrder`
  unfoldable pub cancel_order : ℕ → ℕ → Tx Error Db (Unit {0})
  unfolding assert_transition
  cancel_order user_id order_id = do
    order ← or_throw (← gets (find_order_by_id order_id)) order_not_found
    throw_if (not (order.user_id == user_id)) order_not_found
    throw_if (not (has cancellable_states order.status)) not_cancellable
    assert_step order.status cancelled
    modify (update_order_status order_id cancelled (λ (o : Order). o))
    modify (
        create_trade_audit (record {
          order_id = order_id;
          user_id = user_id;
          action = order_cancelled;
          from_status = some order.status;
          to_status = some cancelled;
        }))
