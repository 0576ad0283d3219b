-- ===== src/Trading/Execution/Fills.antt =====
-- Execution: an order is executed once, ends as its fill says, and no money moves before settlement.
use pine_backend.Base.{
  ℕ, ◌≡◌, refl, true, false, ◌⊎◌, arith, some, ok, err, ◌==◌, Option-cases, Bool-cases, inl, inr,
  ==_iff, find?-test, update_where,
}
use pine_backend.Decimals.{Decimals}
use pine_backend.Store.Errors.{not_queued}
use pine_backend.Store.Rows.{Db, Order, order_submitted_to_broker, order_executed_by_broker}
use pine_backend.Store.Lookups.{find_order_by_id, update_order_status}
use pine_backend.Trading.Lifecycle.{
  OrderLifecycleStatus, submitted, accepted, rejected, filled, partially_filled, same_status,
}
use pine_backend.Trading.Fees.{ResolvedFeePolicy, trading_fees_under}
use pine_backend.Trading.Orders.Writes.{written}
use pine_backend.Wallet.Reservations.{release_reservation, end_hold}
use pine_backend.Trading.Execution.{
  decline, BrokerOrderSubmission, BrokerFillResult, Outcome, declined, executed, execute, respond,
  execute_queued_order, fill_status, is_refused, execution_price, audit_step, submission_of,
  filled_order, event_of,
}

module _ ⦃D : Decimals⦄ where
  open D use {Decimal, of_number}

  -- The status that a broker's answer leaves an order of a quantity in: REJECTED where it declines,
  -- FILLED where it fills no less than the quantity, PARTIALLY_FILLED where it fills less.
  abbrev pub EndsIn : BrokerFillResult → Decimal → Outcome → OrderLifecycleStatus → Type 0
  EndsIn answer asked declined s = (is_refused answer.status ≡ true) × (s ≡ rejected)
  EndsIn answer asked (executed e) s =
      (is_refused answer.status ≡ false)
      × (((D.gte (of_number answer.filled_quantity) asked ≡ true) × (s ≡ filled))
          ⊎ ((D.gte (of_number answer.filled_quantity) asked ≡ false) × (s ≡ partially_filled)))

  fill_status-ends :
      (o : Order) (quantity : Decimal)
      → ((D.gte quantity o.quantity ≡ true) × (fill_status o quantity ≡ filled))
        ⊎ ((D.gte quantity o.quantity ≡ false) × (fill_status o quantity ≡ partially_filled))
  fill_status-ends o quantity = elim (Bool-cases (D.gte quantity o.quantity)) [
    | inl full ↦ inl (full, ground arith)
    | inr part ↦ inr (part, ground arith)
  ]

  module _ (adapter : BrokerOrderSubmission → BrokerFillResult) (policy : ResolvedFeePolicy)
      (platform_fee : Decimal → Decimal) where
    respond-ends :
        (id : ℕ) (o x : Order) (answer : BrokerFillResult) (db db' : Db) (out : Outcome)
        → o.id ≡ id
        → find_order_by_id id db ≡ some x
        → respond adapter policy platform_fee o answer db ≡ ok (out, db')
        → (o' : Order) × (find_order_by_id id db' ≡ some o')
          × EndsIn answer o.quantity out o'.status
    unfolding respond decline release_reservation end_hold
    respond-ends id o x answer db db' out own found h =
        elim (Bool-cases (is_refused answer.status)) [
          | inl refusal ↦
              let f = λ (r : Order). record r { status = rejected } in
              let ended : out ≡ declined = ground arith in
              let rows : db'.orders ≡ update_where (λ (r : Order). r.id == o.id) f db.orders =
                ground arith in
              (
                f x,
                rw rows (written id f db.orders x o own (λ r. refl) found),
                rw ended (refusal, refl),
              )
          | inr fills ↦
              let price = of_number answer.fill_price in
              let quantity = of_number answer.filled_quantity in
              let fees = trading_fees_under policy price quantity o.side in
              let f = λ (r : Order).
                let r' = filled_order fees price quantity r in
                record r' { status = fill_status o quantity } in
              let ended : out ≡ executed (event_of o fees price quantity db.next) = ground arith in
              let rows : db'.orders ≡ update_where (λ (r : Order). r.id == o.id) f db.orders =
                ground arith in
              (
                f x,
                rw rows (written id f db.orders x o own (λ r. refl) found),
                rw ended (fills, fill_status-ends o quantity),
              )
        ]

    -- An execution of an order that returns leaves it REJECTED where the broker declines it, FILLED
    -- where the broker fills no less than its quantity, and PARTIALLY_FILLED where it fills less.
    pub execute-ends :
        (id : ℕ) (price : Decimal) (o : Order) (db db' : Db) (out : Outcome)
        → find_order_by_id id db ≡ some o
        → execute adapter policy platform_fee id price db ≡ ok (out, db')
        → (o' : Order) × (find_order_by_id id db' ≡ some o')
          × EndsIn (adapter (submission_of o price)) o.quantity out o'.status
    unfolding execute
    execute-ends id price o db db' out found h =
        let same : (o.id == id) ≡ true = find?-test (λ (x : Order). x.id == id) db.orders o found in
        let own : o.id ≡ id = (==_iff _ _).0 same in
        let as_is = λ (r : Order). r in
        let put = λ (st : OrderLifecycleStatus) (r : Order). record r { status = st } in
        let answer = adapter (submission_of o price) in
        let note = audit_step o order_submitted_to_broker o.status submitted in
        elim (Bool-cases (same_status o.status submitted)) [
          | inl queued ↦
              let db1 = update_order_status o.id accepted as_is (note db) in
              let rest : respond adapter policy platform_fee o answer db1 ≡ ok (out, db') =
                ground (arith, found, queued, h) in
              respond-ends id o (put accepted o) answer db1 db' out own
                (written id (put accepted) db.orders o o own (λ r. refl) found) rest
          | inr fresh ↦
              let db0 = update_order_status o.id submitted as_is db in
              let db1 = update_order_status o.id accepted as_is (note db0) in
              let rest : respond adapter policy platform_fee o answer db1 ≡ ok (out, db') =
                ground (arith, found, fresh, h) in
              let first = written id (put submitted) db.orders o o own (λ r. refl) found in
              respond-ends id o (put accepted (put submitted o)) answer db1 db' out own
                (written id (put accepted) db0.orders (put submitted o) o own (λ r. refl) first)
                rest
        ]

    -- Executing an order moves no money and no shares: that is left to settlement.
    pub execute_moves_nothing :
        (id : ℕ) (price : Decimal) (db db' : Db) (out : Outcome)
        → execute adapter policy platform_fee id price db ≡ ok (out, db')
        → (db'.wallets ≡ db.wallets) × (db'.ledger ≡ db.ledger) × (db'.holdings ≡ db.holdings)
    unfolding execute respond decline release_reservation end_hold
    execute_moves_nothing id price db db' out h = (ground arith, ground arith, ground arith)

    not_submitted :
        (answer : BrokerFillResult) (asked : Decimal) (out : Outcome) (s : OrderLifecycleStatus)
        → EndsIn answer asked out s
        → same_status s submitted ≡ false
    not_submitted answer asked declined s (refusal, h) = ground arith
    not_submitted answer asked (executed e) s (fills, inl (full, h)) = ground arith
    not_submitted answer asked (executed e) s (fills, inr (part, h)) = ground arith

    -- An order is executed once: after a broker-confirmed execution that returns, whatever the broker
    -- answered, a second one is refused with a conflict.
    pub execute_queued_order_twice :
        (id : ℕ) (db db' : Db) (out : Outcome)
        → execute_queued_order adapter policy platform_fee id db ≡ ok (out, db')
        → execute_queued_order adapter policy platform_fee id db' ≡ err not_queued
    unfolding execute_queued_order
    execute_queued_order_twice id db db' out h = elim (Option-cases (find_order_by_id id db)) [
      | inl missing ↦ ground arith
      | inr (o, found) ↦ elim (Option-cases (execution_price o db)) [
        | inl unpriced ↦ ground arith
        | inr (price, priced) ↦
            let note = audit_step o order_executed_by_broker submitted submitted in
            let run : execute adapter policy platform_fee id price (note db) ≡ ok (out, db') =
              ground arith in
            let (o', found', ended) = execute-ends id price o (note db) db' out found run in
            let done =
              not_submitted (adapter (submission_of o price)) o.quantity out o'.status ended in
            ground (arith, found', done)
      ]
    ]
