-- ===== src/Trading/Submission/Ends.antt =====
-- How a submission ends: queued with its money held, or rejected with nothing held.
use pine_backend.Base.{
  ℕ, ◌≡◌, refl, ◌∙◌, false, Bool, none, some, Result, ok, err, arith, inl, inr, ◌⊎◌,
}
use pine_backend.Decimals.{Decimals}
use pine_backend.Store.Errors.{Error}
use pine_backend.Store.Rows.{Db, Order, order_queued_for_broker, order_rejected}
use pine_backend.Store.Lookups.{
  find_order_by_id, find_reservation_by_order_id, create_trade_audit, update_order_status,
}
use pine_backend.Trading.Lifecycle.{
  OrderLifecycleStatus, draft, pending_validation, validated, submitted, rejected, has,
  terminal_states,
}
use pine_backend.Trading.Fees.{Side, buy, sell, ResolvedFeePolicy}
use pine_backend.Trading.Orders.{OrderRequest}
use pine_backend.Trading.Orders.Writes.{update_order_status-IsAt, update_order_status-found}
use pine_backend.Trading.Submission.{
  validate_order, secure_order, queue_order, run_pipeline, reject_order, submit_draft,
}
use pine_backend.Trading.Submission.Steps.{
  IsQuiet, IsMoved, IsSecured, HeldFor, Costed, validate_order-AfterValidation,
  secure_order-AfterSecuring, may_queue,
}

module _ ⦃D : Decimals⦄ where
  open D use {Decimal}

  pub Run-cases :
      {A : Type 0} (m : Result Error A × Db)
      → ((a : A) × (t : Db) × (m ≡ (ok a, t))) ⊎ ((e : Error) × (t : Db) × (m ≡ (err e, t)))
  Run-cases (ok a, t) = inl (a, t, refl)
  Run-cases (err e, t) = inr (e, t, refl)

  IsQuiet-trans : (db db1 db2 : Db) → IsQuiet db db1 → IsQuiet db1 db2 → IsQuiet db db2
  IsQuiet-trans db db1 db2 p q = record {
    wallets = q.wallets ∙ p.wallets;
    ledger = q.ledger ∙ p.ledger;
    holdings = q.holdings ∙ p.holdings;
  }

  HeldFor_from :
      (user_id : ℕ) (side : Side) (o : Order) (db db1 db2 : Db)
      → db1.reservations ≡ db.reservations
      → HeldFor user_id side o db1 db2
      → HeldFor user_id side o db db2
  HeldFor_from user_id buy o db db1 db2 same held = held
  HeldFor_from user_id sell o db db1 db2 same held = held ∙ same

  HeldFor_moved :
      (user_id : ℕ) (side : Side) (o : Order) (db db1 db2 : Db)
      → db2.reservations ≡ db1.reservations
      → db2.wallets ≡ db1.wallets
      → ((cost : Decimal) → Costed o.id cost db1 → Costed o.id cost db2)
      → HeldFor user_id side o db db1
      → HeldFor user_id side o db db2
  HeldFor_moved user_id buy o db db1 db2 same wallets costs held = record {
    cost = held.cost;
    costed = costs held.cost held.costed;
    wallet = held.wallet;
    hold = held.hold;
    found = rw wallets held.found;
    held = rw same held.held;
    own = held.own;
    amount = held.amount;
  }
  HeldFor_moved user_id sell o db db1 db2 same wallets costs held = same ∙ held

  -- The statuses at which the pipeline can fail.
  data IsOnTheWay : OrderLifecycleStatus → Type 0 where
    pending : IsOnTheWay pending_validation
    passed : IsOnTheWay validated

  -- The pipeline ends at SUBMITTED, or fails on the way there with nothing held.
  abbrev AfterPipeline : ℕ → Side → Order → Db → Result Error (Unit {0}) × Db → Type 0
  AfterPipeline user_id side o db (ok u, db') = IsSecured user_id side o submitted db db'
  AfterPipeline user_id side o db (err e, db') =
      (s : OrderLifecycleStatus) × IsOnTheWay s × IsMoved o s db db'

  -- The order is rejected, no money has moved, and nothing is held for it.
  pub record IsRejected (o : Order) (db db' : Db) : Type 0 where
    pub moved : IsMoved o rejected db db'
    pub unheld : find_reservation_by_order_id o.id db' ≡ none

  abbrev pub AfterSubmission : ℕ → Side → Order → Db → Result Error (Unit {0}) × Db → Type 0
  AfterSubmission user_id side o db (ok u, db') = IsSecured user_id side o submitted db db'
  AfterSubmission user_id side o db (err e, db') = IsRejected o db db'

  on_the_way-live : (s : OrderLifecycleStatus) → IsOnTheWay s → has terminal_states s ≡ false
  on_the_way-live _ pending = refl
  on_the_way-live _ passed = refl

  unheld_from :
      (o : Order) (db db1 : Db)
      → find_reservation_by_order_id o.id db ≡ none
      → db1.reservations ≡ db.reservations
      → find_reservation_by_order_id o.id db1 ≡ none
  unheld_from o db db1 free same = rw same free

  module _ (policy : ResolvedFeePolicy) (blocked : ℕ → ℕ → Decimal → Db → Bool) (midnight now : ℕ)
      (request : OrderRequest) (kyc : Bool) (o : Order) (db : Db) where
    queue_order-queued :
        (db2 : Db)
        → IsSecured request.user_id request.side o validated db db2
        → AfterPipeline request.user_id request.side o db (queue_order policy blocked o db2)
    unfolding queue_order
    queue_order-queued db2 secured =
        let db3 = update_order_status o.id submitted (λ (r : Order). r) db2 in
        let db4 =
          create_trade_audit
            (record {
              order_id = o.id;
              user_id = o.user_id;
              action = order_queued_for_broker;
              from_status = some validated;
              to_status = some submitted;
            })
            db3 in
        let end : queue_order policy blocked o db2 ≡ (ok tt, db4) = ground (arith, may_queue) in
        let at =
          update_order_status-IsAt o.id submitted (λ (r : Order). r) db2 secured.at.0 o refl
            (λ r. refl) secured.at.1 in
        let still =
          HeldFor_moved request.user_id request.side o db db2 db4 refl refl
            (λ cost costed. (
              record costed.0 { status = submitted },
              update_order_status-found o.id submitted (λ (r : Order). r) db2 costed.0 o refl
                  (λ r. refl) costed.1,
              costed.2,
            ))
            secured.held in
        rw end (record {
          at = at;
          quiet = record {
            wallets = secured.quiet.wallets;
            ledger = secured.quiet.ledger;
            holdings = secured.quiet.holdings;
          };
          held = still;
        })

    IsSecured-from :
        (db1 db2 : Db)
        → IsMoved o validated db db1
        → IsSecured request.user_id request.side o validated db1 db2
        → IsSecured request.user_id request.side o validated db db2
    IsSecured-from db1 db2 moved secured = record {
      at = secured.at;
      quiet = IsQuiet-trans db db1 db2 moved.quiet secured.quiet;
      held = HeldFor_from request.user_id request.side o db db1 db2 moved.reservations secured.held;
    }

    run_pipeline-AfterPipeline :
        o.status ≡ draft
        → find_order_by_id o.id db ≡ some o
        → find_reservation_by_order_id o.id db ≡ none
        → AfterPipeline request.user_id request.side o db
            (run_pipeline policy blocked midnight now request kyc o db)
    unfolding run_pipeline
    run_pipeline-AfterPipeline new found free =
        let first = validate_order-AfterValidation policy blocked request kyc o db new found in
        elim (Run-cases (validate_order policy blocked request kyc o db)) [
          | inr (e, db1, failed) ↦
              let end : run_pipeline policy blocked midnight now request kyc o db ≡ (err e, db1) =
                ground (arith, failed) in
              rw end (pending_validation, pending, rw failed at first)
          | inl (fees, db1, ran) ↦
              let (moved, costed) : IsMoved o validated db db1 × Costed o.id fees.total_cost db1 =
                rw ran at first in
              let second =
                secure_order-AfterSecuring policy blocked midnight now request fees o db1 moved.at
                  costed (unheld_from o db db1 free moved.reservations) in
              elim (Run-cases (secure_order policy blocked midnight now request fees o db1)) [
                | inr (e, db2, failed) ↦
                    let end : run_pipeline policy blocked midnight now request kyc o db
                        ≡ (err e, db2) =
                      ground (arith, ran, failed) in
                    let here_ : IsMoved o validated db1 db2 = rw failed at second in
                    rw end (
                      validated,
                      passed,
                      record {
                        at = here_.at;
                        quiet = IsQuiet-trans db db1 db2 moved.quiet here_.quiet;
                        reservations = here_.reservations ∙ moved.reservations;
                      },
                    )
                | inl (u, db2, went) ↦
                    let end : run_pipeline policy blocked midnight now request kyc o db
                        ≡ queue_order policy blocked o db2 =
                      ground (arith, ran, went) in
                    rw end
                      (queue_order-queued db2 (IsSecured-from db1 db2 moved (rw went at second)))
              ]
        ]

    reject_order-IsRejected :
        (s : OrderLifecycleStatus) (db1 : Db)
        → IsOnTheWay s
        → IsMoved o s db db1
        → find_reservation_by_order_id o.id db ≡ none
        → IsRejected o db (reject_order policy blocked o db1)
    unfolding reject_order
    reject_order-IsRejected s db1 way moved free =
        let c = moved.at.0 in
        let live : has terminal_states c.status ≡ false = rw moved.at.2 (on_the_way-live s way) in
        let db2 =
          create_trade_audit
            (record {
              order_id = o.id;
              user_id = o.user_id;
              action = order_rejected;
              from_status = some c.status;
              to_status = some rejected;
            })
            (update_order_status o.id rejected (λ (r : Order). r) db1) in
        let unheld : find_reservation_by_order_id o.id db2 ≡ none =
          unheld_from o db db2 free moved.reservations in
        let end : reject_order policy blocked o db1 ≡ db2 =
          ground (arith, moved.at.1, live, unheld) in
        let at =
          update_order_status-IsAt o.id rejected (λ (r : Order). r) db1 c o refl (λ r. refl)
            moved.at.1 in
        rw end (record {
          moved = record {
            at = at;
            quiet = record {
              wallets = moved.quiet.wallets;
              ledger = moved.quiet.ledger;
              holdings = moved.quiet.holdings;
            };
            reservations = moved.reservations;
          };
          unheld = unheld;
        })

    -- A draft for which nothing is held is submitted in one of two ways, and no cash, ledger entry or
    -- share moves in either: the call returns, and the order is SUBMITTED, where for a purchase an active
    -- hold of the cost that the order's row carries stands on the user's wallet, and for a sale no hold
    -- has changed; or it throws, and the order is REJECTED with nothing held for it.
    pub submit_draft-AfterSubmission :
        o.status ≡ draft
        → find_order_by_id o.id db ≡ some o
        → find_reservation_by_order_id o.id db ≡ none
        → AfterSubmission request.user_id request.side o db
            (submit_draft policy blocked midnight now request kyc o db)
    unfolding submit_draft
    submit_draft-AfterSubmission new found free =
        let run = run_pipeline-AfterPipeline new found free in
        elim (Run-cases (run_pipeline policy blocked midnight now request kyc o db)) [
          | inl (u, db1, went) ↦
              let end : submit_draft policy blocked midnight now request kyc o db ≡ (ok u, db1) =
                ground (arith, went) in
              rw end (rw went at run)
          | inr (e, db1, failed) ↦
              let end : submit_draft policy blocked midnight now request kyc o db
                  ≡ (err e, reject_order policy blocked o db1) =
                ground (arith, failed) in
              let (s, way, moved) : (s : OrderLifecycleStatus) × IsOnTheWay s × IsMoved o s db db1 =
                rw failed at run in
              rw end (reject_order-IsRejected s db1 way moved free)
        ]
