-- ===== src/Trading/Submission.antt =====
-- The submission pipeline, `submitOrder`, `replayExistingOrder` and `cancelOrder` of
-- src/modules/trading/services/trading.service.ts. The events that it emits are handled at once: a
-- rejected or cancelled order releases its hold (src/modules/wallet/services/reservation.service.ts).
-- Of a response the figures are left out, and the text of a rejection.
pub mod Steps
pub mod Ends
pub mod Cashless
use pine_backend.Base.{
  ℕ, ◌*◌, Bool, true, false, not, ◌&&◌, Option, none, some, List, ◌∷◌, [], Tx, Result, ok, err,
  ◌||◌, Action, transaction, if◌then◌else◌,
}
use pine_backend.Base.Actions.{◌>>=◌, ◌>>◌, pure, write, fail_if}
use pine_backend.Decimals.{Decimals, nought}
use pine_backend.Store.Errors.{Error, proceeds_too_small, order_not_processed, not_cancellable}
use pine_backend.Store.Rows.{
  Db, Order, User, AuditAction, order_validated, risk_check_passed, funds_reserved,
  order_queued_for_broker, order_rejected,
}
use pine_backend.Store.Lookups.{find_order_by_id, create_trade_audit, update_order_status}
use pine_backend.Trading.Lifecycle.{
  OrderLifecycleStatus, draft, pending_validation, validated, submitted, rejected, cancelled,
  expired, same_status, has, terminal_states, active_states,
}
use pine_backend.Trading.Fees.{Side, buy, sell, TradingFees, ResolvedFeePolicy}
use pine_backend.Trading.Orders.{OrderRequest, create_order, assert_step, limit_of, cancel_order}
use pine_backend.Trading.Validation.{OrderToValidate, validate, is_sell}
use pine_backend.Trading.Risk.{check_risk}
use pine_backend.Wallet.Reservations.{reserve_funds, release_reservation}
use pine_backend.Accounts.{find_user, ensure_broker, require_broker}

module _ ⦃D : Decimals⦄ where
  open D use {Decimal, lte, of_number, to_number}

  abbrev pub audit :
      Order
      → AuditAction
      → Option OrderLifecycleStatus
      → Option OrderLifecycleStatus
      → Action Error Db (Unit {0})
  audit o action from to = write (
      create_trade_audit (record {
        order_id = o.id;
        user_id = o.user_id;
        action = action;
        from_status = from;
        to_status = to;
      }))

  -- `updateOrderStatus` where only times and reasons go with it
  abbrev pub move_to : Order → OrderLifecycleStatus → Action Error Db (Unit {0})
  move_to o status = write (update_order_status o.id status (λ (r : Order). r))

  abbrev pub with_fees : TradingFees → Order → Order
  with_fees fees r = record r {
    total_fees = D.store fees.total_fees;
    total_cost = D.store fees.total_cost;
  }

  -- what the checks are given of a request
  abbrev pub to_validate : OrderRequest → Bool → Order → OrderToValidate
  to_validate request kyc_approved o = record {
    user_id = request.user_id;
    stock_id = o.stock_id;
    side = request.side;
    type = request.type;
    quantity = of_number request.quantity;
    limit_price = limit_of request.limit_price;
    kyc_approved = kyc_approved;
    order_id = o.id;
  }

  -- `(await getCurrentKycStatus(userId)) ?? userKycStatus`
  abbrev pub live_kyc : ℕ → Bool → Db → Bool
  live_kyc user_id claim db = elim (find_user user_id db) [ none ↦ claim | some u ↦ u.kyc_approved ]

  module _ (policy : ResolvedFeePolicy) (blocked : ℕ → ℕ → Decimal → Db → Bool) where
    -- Step 2, to VALIDATED
    unfoldable pub validate_order : OrderRequest → Bool → Order → Action Error Db TradingFees
    validate_order request kyc_approved o = do
      transaction (assert_step o.status pending_validation)
      move_to o pending_validation
      (price, fees) ← transaction (validate policy blocked (to_validate request kyc_approved o))
      fail_if (is_sell request.side && lte fees.total_cost nought) proceeds_too_small
      transaction (assert_step pending_validation validated)
      write (update_order_status o.id validated (with_fees fees))
      audit o order_validated (some pending_validation) (some validated)
      pure fees

    abbrev pub hold_cost : ℕ → OrderRequest → Order → Decimal → Side → Action Error Db (Unit {0})
    hold_cost now request o cost sell = pure tt
    hold_cost now request o cost buy = do
      transaction (reserve_funds request.user_id o.id (to_number cost) (some (7 * 24 * 60)) now)
      audit o funds_reserved none none

    -- Steps 3 and 4, the risk checks and the hold
    unfoldable pub secure_order :
        ℕ → ℕ → OrderRequest → TradingFees → Order → Action Error Db (Unit {0})
    secure_order midnight now request fees o = do
      transaction (check_risk midnight now request.user_id fees.gross_value)
      audit o risk_check_passed none none
      hold_cost now request o fees.total_cost request.side

    -- Step 5, to SUBMITTED
    unfoldable pub queue_order : Order → Action Error Db (Unit {0})
    queue_order o = do
      transaction (assert_step validated submitted)
      move_to o submitted
      audit o order_queued_for_broker (some validated) (some submitted)

    unfoldable pub run_pipeline : ℕ → ℕ → OrderRequest → Bool → Order → Action Error Db (Unit {0})
    run_pipeline midnight now request kyc_approved o = do
      fees ← validate_order request kyc_approved o
      secure_order midnight now request fees o
      queue_order o

    -- The `catch`: an order that is not in a terminal state is rejected and its hold released.
    unfoldable pub reject_order : Order → Db → Db
    unfolding release_reservation
    reject_order o db = elim (find_order_by_id o.id db) [
      | none ↦ db
      | some c ↦
          if has terminal_states c.status
          then db
          else release_reservation o.id (
              create_trade_audit
                (record {
                  order_id = o.id;
                  user_id = o.user_id;
                  action = order_rejected;
                  from_status = some c.status;
                  to_status = some rejected;
                })
                (update_order_status o.id rejected (λ (r : Order). r) db))
    ]

    abbrev or_reject : Order → Result Error (Unit {0}) × Db → Result Error (Unit {0}) × Db
    or_reject o (ok u, db) = (ok u, db)
    or_reject o (err e, db) = (err e, reject_order o db)

    -- the `try` and `catch` of `submitOrder`
    unfoldable pub submit_draft : ℕ → ℕ → OrderRequest → Bool → Order → Action Error Db (Unit {0})
    unfolding run_pipeline reject_order
    submit_draft midnight now request kyc_approved o db =
        or_reject o (run_pipeline midnight now request kyc_approved o db)

    -- `replayExistingOrder`: whether the order of the key is still on its way
    unfoldable pub replay_existing_order : Order → Action Error Db Bool
    replay_existing_order o = do
      fail_if (same_status o.status rejected) order_not_processed
      fail_if (same_status o.status cancelled || same_status o.status expired) not_cancellable
      pure (has active_states o.status)

    abbrev submit_or_replay : ℕ → ℕ → OrderRequest → Bool → Order → Action Error Db Bool
    submit_or_replay midnight now request kyc_approved o =
        if same_status o.status draft
        then (submit_draft midnight now request kyc_approved o >> pure true)
        else replay_existing_order o

    abbrev place_first : ℕ → Action Error Db (Unit {0})
    place_first user_id db = (ok tt, (ensure_broker user_id db).1)

    -- `submitOrder`: true where the order is queued with the broker
    unfoldable pub submit_order : ℕ → ℕ → OrderRequest → Bool → Action Error Db Bool
    unfolding submit_draft replay_existing_order
    submit_order midnight now request claim db =
        (do
          place_first request.user_id
          transaction (require_broker request.user_id)
          o ← transaction (create_order now request)
          submit_or_replay midnight now request (live_kyc request.user_id claim db) o)
          db

  -- `cancelOrder`: the listener of the event releases the hold
  unfoldable pub cancel_and_release : ℕ → ℕ → Action Error Db (Unit {0})
  unfolding cancel_order release_reservation
  cancel_and_release user_id order_id = do
    transaction (cancel_order user_id order_id)
    write (release_reservation order_id)
