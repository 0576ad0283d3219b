-- ===== src/Trading/Submission/Cashless.antt =====
-- Whatever becomes of a submission, it moves no money: a rule for each way of composing actions, and
-- the pipeline by the rules.
use pine_backend.Base.{
  ℕ, ◌*◌, ◌≡◌, refl, ◌∙◌, ◌&&◌, Bool, true, false, Option, none, some, ok, err, Tx, Action,
  transaction, arith, inl, inr, Bool-cases,
}
use pine_backend.Base.Actions
use pine_backend.Base.Actions.{pure, write, fail_if}
use pine_backend.Decimals.{Decimals, nought}
use pine_backend.Store.Errors.{Error, proceeds_too_small}
use pine_backend.Store.Rows.{
  Db, Order, AuditAction, order_validated, risk_check_passed, funds_reserved,
  order_queued_for_broker,
}
use pine_backend.Store.Lookups.{update_order_status}
use pine_backend.Trading.Lifecycle.{
  OrderLifecycleStatus, draft, pending_validation, validated, submitted, same_status,
}
use pine_backend.Trading.Fees.{Side, buy, sell, TradingFees, ResolvedFeePolicy}
use pine_backend.Trading.Orders.{OrderRequest, create_order, assert_step}
use pine_backend.Trading.Validation.{OrderToValidate, validate, is_sell}
use pine_backend.Trading.Validation.Reads.{validate-reads, check_risk-reads}
use pine_backend.Trading.Risk.{check_risk}
use pine_backend.Trading.Submission.{
  audit, move_to, with_fees, to_validate, live_kyc, validate_order, hold_cost, secure_order,
  queue_order, run_pipeline, reject_order, submit_draft, replay_existing_order, submit_or_replay,
  place_first, submit_order,
}
use pine_backend.Trading.Submission.Steps.{Result-cases}
use pine_backend.Trading.Submission.Ends.{Run-cases}
use pine_backend.Wallet.Reservations.{reserve_funds, place_hold, release_reservation, end_hold}
use pine_backend.Accounts.{ensure_broker, require_broker}

module _ ⦃D : Decimals⦄ where
  open D use {Decimal, lte, to_number}

  -- The cash tables are as they were.
  pub record IsCashless (db db' : Db) : Type 0 where
    pub wallets : db'.wallets ≡ db.wallets
    pub ledger : db'.ledger ≡ db.ledger
    pub transactions : db'.transactions ≡ db.transactions

  untouched : (db : Db) → IsCashless db db
  untouched db = record { wallets = refl; ledger = refl; transactions = refl }

  IsCashless-trans : (a b c : Db) → IsCashless a b → IsCashless b c → IsCashless a c
  IsCashless-trans a b c p q = record {
    wallets = q.wallets ∙ p.wallets;
    ledger = q.ledger ∙ p.ledger;
    transactions = q.transactions ∙ p.transactions;
  }

  module _ {A : Type 0} where
    abbrev pub Cashless : Action Error Db A → Type 0
    Cashless m = (db : Db) → IsCashless db (m db).1

    abbrev CashlessTx : Tx Error Db A → Type 0
    CashlessTx m = (db db' : Db) (a : A) → m db ≡ ok (a, db') → IsCashless db db'

    pure-Cashless : (a : A) → Cashless (pure a)
    pure-Cashless a db = untouched db

    transaction-Cashless : (m : Tx Error Db A) → CashlessTx m → Cashless (transaction m)
    transaction-Cashless m keeps db = elim (Result-cases (m db)) [
      | inl ((a, db'), ran) ↦
          let end : transaction m db ≡ (ok a, db') = ground (arith, ran) in
          rw end (keeps db db' a ran)
      | inr (e, failed) ↦
          let end : transaction m db ≡ (err e, db) = ground (arith, failed) in rw end (untouched db)
    ]

  write-Cashless : (f : Db → Db) → ((db : Db) → IsCashless db (f db)) → Cashless (write f)
  write-Cashless f keeps db = keeps db

  fail_if-Cashless : (b : Bool) (e : Error) → Cashless (fail_if b e)
  fail_if-Cashless true e db = untouched db
  fail_if-Cashless false e db = untouched db

  bind-Cashless :
      {A B : Type 0} (m : Action Error Db A) (f : A → Action Error Db B)
      → Cashless m
      → ((a : A) → Cashless (f a))
      → Cashless (Actions.◌>>=◌ m f)
  bind-Cashless m f first rest db = elim (Run-cases (m db)) [
    | inl (a, db', ran) ↦
        let end : Actions.◌>>=◌ m f db ≡ f a db' = ground (arith, ran) in
        let before : IsCashless db db' = rw ran at (first db) in
        rw end (IsCashless-trans db db' (f a db').1 before (rest a db'))
    | inr (e, db', failed) ↦
        let end : Actions.◌>>=◌ m f db ≡ (err e, db') = ground (arith, failed) in
        rw end (rw failed at (first db))
  ]

  -- An action together with the reason that it moves no money.
  record Kept (A : Type 0) : Type 1 where
    run : Action Error Db A
    keeps : Cashless run

  infixl 5 ◌>>=◌ ◌>>◌
  abbrev ◌>>=◌ : {A B : Type 0} → Kept A → (A → Kept B) → Kept B
  m >>= f = record {
    run = Actions.◌>>=◌ m.run (λ a. (f a).run);
    keeps = bind-Cashless m.run (λ a. (f a).run) m.keeps (λ a. (f a).keeps);
  }

  abbrev ◌>>◌ : {A B : Type 0} → Kept A → Kept B → Kept B
  m >> k = m >>= λ _. k

  abbrev kept : {A : Type 0} (m : Action Error Db A) → Cashless m → Kept A
  kept m keeps = record { run = m; keeps = keeps }

  audit-Cashless :
      (o : Order) (action : AuditAction) (from to : Option OrderLifecycleStatus)
      → Cashless (audit o action from to)
  audit-Cashless o action from to db = record { wallets = refl; ledger = refl; transactions = refl }

  move_to-Cashless : (o : Order) (s : OrderLifecycleStatus) → Cashless (move_to o s)
  move_to-Cashless o s db = record { wallets = refl; ledger = refl; transactions = refl }

  assert_step-Cashless :
      (from to : OrderLifecycleStatus) → Cashless (transaction (assert_step from to))
  assert_step-Cashless from to =
      transaction-Cashless (assert_step from to) (λ db db' u ran. ground (arith, ran))

  reserve_funds-IsCashless :
      (user_id order_id : ℕ) (amount : D.Number) (minutes : Option ℕ) (now : ℕ) (db db' : Db)
      (id : ℕ)
      → reserve_funds user_id order_id amount minutes now db ≡ ok (id, db')
      → IsCashless db db'
  unfolding reserve_funds place_hold
  reserve_funds-IsCashless user_id order_id amount minutes now db db' id ran = record {
    wallets = ground arith;
    ledger = ground arith;
    transactions = ground arith;
  }

  reserve_funds-Cashless :
      (user_id order_id : ℕ) (amount : D.Number) (minutes : Option ℕ) (now : ℕ)
      → Cashless (transaction (reserve_funds user_id order_id amount minutes now))
  reserve_funds-Cashless user_id order_id amount minutes now =
      transaction-Cashless (reserve_funds user_id order_id amount minutes now)
        (reserve_funds-IsCashless user_id order_id amount minutes now)

  require_broker-Cashless : (user_id : ℕ) → Cashless (transaction (require_broker user_id))
  unfolding require_broker
  require_broker-Cashless user_id = transaction-Cashless (require_broker user_id) (λ db db' u ran.
      record {
        wallets = ground (arith, ran);
        ledger = ground (arith, ran);
        transactions = ground (arith, ran);
      })

  create_order-Cashless :
      (now : ℕ) (request : OrderRequest) → Cashless (transaction (create_order now request))
  unfolding create_order
  create_order-Cashless now request =
      transaction-Cashless (create_order now request) (λ db db' o ran. record {
        wallets = ground (arith, ran);
        ledger = ground (arith, ran);
        transactions = ground (arith, ran);
      })

  module _ (policy : ResolvedFeePolicy) (blocked : ℕ → ℕ → Decimal → Db → Bool) where
    validate-Cashless : (v : OrderToValidate) → Cashless (transaction (validate policy blocked v))
    validate-Cashless v =
        transaction-Cashless (validate policy blocked v)
          (λ db db' out ran. rw (validate-reads policy blocked v db db' out ran) (untouched db))

    check_risk-Cashless :
        (midnight now user_id : ℕ) (gross : Decimal)
        → Cashless (transaction (check_risk midnight now user_id gross))
    check_risk-Cashless midnight now user_id gross =
        transaction-Cashless (check_risk midnight now user_id gross) (λ db db' u ran.
          rw (check_risk-reads midnight now user_id gross db db' u ran) (untouched db))

    validate_order-Cashless :
        (request : OrderRequest) (kyc : Bool) (o : Order)
        → Cashless (validate_order policy blocked request kyc o)
    unfolding validate_order
    validate_order-Cashless request kyc o = pipeline.keeps
      where
        pipeline : Kept TradingFees
        pipeline = do
          kept (transaction (assert_step o.status pending_validation))
              (assert_step-Cashless o.status pending_validation)
          kept (move_to o pending_validation) (move_to-Cashless o pending_validation)
          out ←
              kept (transaction (validate policy blocked (to_validate request kyc o)))
                (validate-Cashless (to_validate request kyc o))
          kept (fail_if (is_sell request.side && lte out.1.total_cost nought) proceeds_too_small) (
              fail_if-Cashless (is_sell request.side && lte out.1.total_cost nought)
                proceeds_too_small)
          kept (transaction (assert_step pending_validation validated))
              (assert_step-Cashless pending_validation validated)
          kept (write (update_order_status o.id validated (with_fees out.1))) (
              write-Cashless (update_order_status o.id validated (with_fees out.1))
                (λ db. record { wallets = refl; ledger = refl; transactions = refl }))
          kept (audit o order_validated (some pending_validation) (some validated))
              (audit-Cashless o order_validated (some pending_validation) (some validated))
          kept (pure out.1) (pure-Cashless out.1)

    hold_cost-Cashless :
        (now : ℕ) (request : OrderRequest) (o : Order) (cost : Decimal) (side : Side)
        → Cashless (hold_cost policy blocked now request o cost side)
    hold_cost-Cashless now request o cost sell = pure-Cashless tt
    hold_cost-Cashless now request o cost buy = holding.keeps
      where
        holding : Kept (Unit {0})
        holding = do
          kept
              (transaction
                (reserve_funds request.user_id o.id (to_number cost) (some (7 * 24 * 60)) now))
              (reserve_funds-Cashless request.user_id o.id (to_number cost) (some (7 * 24 * 60))
                now)
          kept (audit o funds_reserved none none) (audit-Cashless o funds_reserved none none)

    secure_order-Cashless :
        (midnight now : ℕ) (request : OrderRequest) (fees : TradingFees) (o : Order)
        → Cashless (secure_order policy blocked midnight now request fees o)
    unfolding secure_order
    secure_order-Cashless midnight now request fees o = stage.keeps
      where
        stage : Kept (Unit {0})
        stage = do
          kept (transaction (check_risk midnight now request.user_id fees.gross_value))
              (check_risk-Cashless midnight now request.user_id fees.gross_value)
          kept (audit o risk_check_passed none none) (audit-Cashless o risk_check_passed none none)
          kept (hold_cost policy blocked now request o fees.total_cost request.side)
              (hold_cost-Cashless now request o fees.total_cost request.side)

    queue_order-Cashless : (o : Order) → Cashless (queue_order policy blocked o)
    unfolding queue_order
    queue_order-Cashless o = stage.keeps
      where
        stage : Kept (Unit {0})
        stage = do
          kept (transaction (assert_step validated submitted))
              (assert_step-Cashless validated submitted)
          kept (move_to o submitted) (move_to-Cashless o submitted)
          kept (audit o order_queued_for_broker (some validated) (some submitted))
              (audit-Cashless o order_queued_for_broker (some validated) (some submitted))

    run_pipeline-Cashless :
        (midnight now : ℕ) (request : OrderRequest) (kyc : Bool) (o : Order)
        → Cashless (run_pipeline policy blocked midnight now request kyc o)
    unfolding run_pipeline
    run_pipeline-Cashless midnight now request kyc o = pipeline.keeps
      where
        pipeline : Kept (Unit {0})
        pipeline = do
          fees ←
              kept (validate_order policy blocked request kyc o)
                (validate_order-Cashless request kyc o)
          kept (secure_order policy blocked midnight now request fees o)
              (secure_order-Cashless midnight now request fees o)
          kept (queue_order policy blocked o) (queue_order-Cashless o)

    reject_order-IsCashless :
        (o : Order) (db : Db) → IsCashless db (reject_order policy blocked o db)
    unfolding reject_order release_reservation end_hold
    reject_order-IsCashless o db = record {
      wallets = ground arith;
      ledger = ground arith;
      transactions = ground arith;
    }

    submit_draft-Cashless :
        (midnight now : ℕ) (request : OrderRequest) (kyc : Bool) (o : Order)
        → Cashless (submit_draft policy blocked midnight now request kyc o)
    unfolding submit_draft
    submit_draft-Cashless midnight now request kyc o db =
        let run = run_pipeline-Cashless midnight now request kyc o db in
        elim (Run-cases (run_pipeline policy blocked midnight now request kyc o db)) [
          | inl (u, db1, went) ↦ rw went (rw went at run)
          | inr (e, db1, failed) ↦ rw failed (
              IsCashless-trans db db1 (reject_order policy blocked o db1) (rw failed at run)
                (reject_order-IsCashless o db1))
        ]

    replay-Cashless : (o : Order) → Cashless (replay_existing_order policy blocked o)
    unfolding replay_existing_order
    replay-Cashless o db = record {
      wallets = ground arith;
      ledger = ground arith;
      transactions = ground arith;
    }

    submit_or_replay-Cashless :
        (midnight now : ℕ) (request : OrderRequest) (kyc : Bool) (o : Order)
        → Cashless (submit_or_replay policy blocked midnight now request kyc o)
    submit_or_replay-Cashless midnight now request kyc o =
        elim (Bool-cases (same_status o.status draft)) [
          | inl new ↦
              rw new
                (kept (submit_draft policy blocked midnight now request kyc o)
                    (submit_draft-Cashless midnight now request kyc o)
                  >> kept (pure true) (pure-Cashless true)).keeps
          | inr old ↦ rw old (replay-Cashless o)
        ]

    place_first-Cashless : (user_id : ℕ) → Cashless (place_first policy blocked user_id)
    unfolding ensure_broker
    place_first-Cashless user_id db = record {
      wallets = ground arith;
      ledger = ground arith;
      transactions = ground arith;
    }

    -- A submission, however it ends, moves no money.
    pub submit_order-Cashless :
        (midnight now : ℕ) (request : OrderRequest) (claim : Bool)
        → Cashless (submit_order policy blocked midnight now request claim)
    unfolding submit_order
    submit_order-Cashless midnight now request claim db = submission.keeps db
      where
        submission : Kept Bool
        submission = do
          kept (place_first policy blocked request.user_id) (place_first-Cashless request.user_id)
          kept (transaction (require_broker request.user_id))
              (require_broker-Cashless request.user_id)
          o ← kept (transaction (create_order now request)) (create_order-Cashless now request)
          kept
              (submit_or_replay policy blocked midnight now request
                (live_kyc request.user_id claim db) o)
              (submit_or_replay-Cashless midnight now request (live_kyc request.user_id claim db) o)
