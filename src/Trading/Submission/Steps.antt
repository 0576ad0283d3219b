-- ===== src/Trading/Submission/Steps.antt =====
-- Stage by stage: where the pipeline leaves the order, and what it leaves alone.
use pine_backend.Base.{
  ℕ, ◌*◌, ◌≡◌, refl, ◌&&◌, Bool, none, some, Result, ok, err, arith, Bool-cases, inl, inr, ◌⊎◌,
}
use pine_backend.Decimals.{Decimals, nought}
use pine_backend.Store.Errors.{Error, proceeds_too_small}
use pine_backend.Store.Rows.{
  Db, Order, Wallet, WalletReservation, order_validated, risk_check_passed, funds_reserved,
}
use pine_backend.Store.Lookups.{
  find_order_by_id, find_wallet_by_user_id, find_reservation_by_order_id, create_trade_audit,
  update_order_status,
}
use pine_backend.Trading.Lifecycle.{
  OrderLifecycleStatus, draft, pending_validation, validated, submitted, assert_transition,
}
use pine_backend.Trading.Fees.{Side, buy, sell, TradingFees, ResolvedFeePolicy}
use pine_backend.Trading.Orders.{OrderRequest}
use pine_backend.Trading.Orders.Writes.{IsAt, update_order_status-IsAt, update_order_status-found}
use pine_backend.Trading.Validation.{validate, is_sell}
use pine_backend.Trading.Validation.Reads.{validate-reads, check_risk-reads}
use pine_backend.Trading.Risk.{check_risk}
use pine_backend.Trading.Submission.{
  validate_order, secure_order, hold_cost, to_validate, with_fees,
}
use pine_backend.Wallet.Reservations.{reserve_funds}
use pine_backend.Wallet.Reservations.Holds.{reserve_funds-placed, reserve_funds-keeps}

pub Result-cases :
    {E A : Type 0} (r : Result E A) → ((a : A) × (r ≡ ok a)) ⊎ ((e : E) × (r ≡ err e))
Result-cases (ok a) = inl (a, refl)
Result-cases (err e) = inr (e, refl)

-- The transitions of the pipeline are in the table.
may_start : assert_transition draft pending_validation ≡ ok tt
unfolding assert_transition
may_start = refl

may_pass : assert_transition pending_validation validated ≡ ok tt
unfolding assert_transition
may_pass = refl

pub may_queue : assert_transition validated submitted ≡ ok tt
unfolding assert_transition
may_queue = refl

module _ ⦃D : Decimals⦄ where
  open D use {Decimal, lte}

  -- No money and no shares have moved.
  pub record IsQuiet (db db' : Db) : Type 0 where
    pub wallets : db'.wallets ≡ db.wallets
    pub ledger : db'.ledger ≡ db.ledger
    pub holdings : db'.holdings ≡ db.holdings

  -- The order is in a status, and besides it only audits have been written.
  pub record IsMoved (o : Order) (s : OrderLifecycleStatus) (db db' : Db) : Type 0 where
    pub at : IsAt o.id s db'
    pub quiet : IsQuiet db db'
    pub reservations : db'.reservations ≡ db.reservations

  -- The order's row carries a cost, as the column keeps it.
  abbrev pub Costed : ℕ → Decimal → Db → Type 0
  Costed id cost db =
      (row : Order) × (find_order_by_id id db ≡ some row) × (row.total_cost ≡ D.store cost)

  -- Validation ends at VALIDATED with the cost on the order, or fails at PENDING_VALIDATION.
  abbrev pub AfterValidation : Order → Db → Result Error TradingFees × Db → Type 0
  AfterValidation o db (ok fees, db') = IsMoved o validated db db' × Costed o.id fees.total_cost db'
  AfterValidation o db (err e, db') = IsMoved o pending_validation db db'

  module _ (policy : ResolvedFeePolicy) (blocked : ℕ → ℕ → Decimal → Db → Bool) where
    pub validate_order-AfterValidation :
        (request : OrderRequest) (kyc : Bool) (o : Order) (db : Db)
        → o.status ≡ draft
        → find_order_by_id o.id db ≡ some o
        → AfterValidation o db (validate_order policy blocked request kyc o db)
    unfolding validate_order
    validate_order-AfterValidation request kyc o db new found =
        let start : assert_transition o.status pending_validation ≡ ok tt = rw new may_start in
        let db1 = update_order_status o.id pending_validation (λ (r : Order). r) db in
        let at1 =
          update_order_status-IsAt o.id pending_validation (λ (r : Order). r) db o o refl
            (λ r. refl) found in
        let moved1 : IsMoved o pending_validation db db1 = record {
          at = at1;
          quiet = record { wallets = refl; ledger = refl; holdings = refl };
          reservations = refl;
        } in
        elim (Result-cases (validate policy blocked (to_validate request kyc o) db1)) [
          | inr (e, failed) ↦
              let end : validate_order policy blocked request kyc o db ≡ (err e, db1) =
                ground (arith, start, failed) in
              rw end moved1
          | inl (((price, fees), db2), passed) ↦
              let same =
                validate-reads policy blocked (to_validate request kyc o) db1 db2 (price, fees)
                  passed in
              elim (Bool-cases (is_sell request.side && lte fees.total_cost nought)) [
                | inl small ↦
                    let end : validate_order policy blocked request kyc o db
                        ≡ (err proceeds_too_small, db1) =
                      ground (arith, start, passed, same, small) in
                    rw end moved1
                | inr enough ↦
                    let db3 = update_order_status o.id validated (with_fees fees) db1 in
                    let db4 =
                      create_trade_audit
                        (record {
                          order_id = o.id;
                          user_id = o.user_id;
                          action = order_validated;
                          from_status = some pending_validation;
                          to_status = some validated;
                        })
                        db3 in
                    let end : validate_order policy blocked request kyc o db ≡ (ok fees, db4) =
                      ground (arith, start, may_pass, passed, same, enough) in
                    let at3 =
                      update_order_status-IsAt o.id validated (with_fees fees) db1 at1.0 o refl
                        (λ r. refl) at1.1 in
                    let row =
                      update_order_status-found o.id validated (with_fees fees) db1 at1.0 o refl
                        (λ r. refl) at1.1 in
                    rw end (
                      record {
                        at = at3;
                        quiet = record { wallets = refl; ledger = refl; holdings = refl };
                        reservations = refl;
                      },
                      (
                        (let r' = with_fees fees at1.0 in record r' { status = validated }),
                        row,
                        refl,
                      ),
                    )
              ]
        ]

  -- The order's active hold stands on the user's wallet, for the cost that its row carries.
  pub record IsHeld (user_id : ℕ) (o : Order) (db' : Db) : Type 0 where
    pub cost : Decimal
    pub costed : Costed o.id cost db'
    pub wallet : Wallet
    pub hold : WalletReservation
    pub found : find_wallet_by_user_id user_id db' ≡ some wallet
    pub held : find_reservation_by_order_id o.id db' ≡ some hold
    pub own : hold.wallet_id ≡ wallet.id
    pub amount : hold.amount ≡ D.store (D.of_number (D.to_number cost))

  -- A purchase has its cost held, a sale no hold that it had not.
  abbrev pub HeldFor : ℕ → Side → Order → Db → Db → Type 0
  HeldFor user_id buy o db db' = IsHeld user_id o db'
  HeldFor user_id sell o db db' = db'.reservations ≡ db.reservations

  -- The order is in a status, its hold in place.
  pub record IsSecured (user_id : ℕ) (side : Side) (o : Order) (s : OrderLifecycleStatus)
      (db db' : Db) : Type 0 where
    pub at : IsAt o.id s db'
    pub quiet : IsQuiet db db'
    pub held : HeldFor user_id side o db db'

  abbrev pub AfterSecuring : ℕ → Side → Order → Db → Result Error (Unit {0}) × Db → Type 0
  AfterSecuring user_id side o db (ok u, db') = IsSecured user_id side o validated db db'
  AfterSecuring user_id side o db (err e, db') = IsMoved o validated db db'

  module _ (policy : ResolvedFeePolicy) (blocked : ℕ → ℕ → Decimal → Db → Bool) (midnight now : ℕ)
      (request : OrderRequest) (fees : TradingFees) (o : Order) (db : Db)
      (at : IsAt o.id validated db) (costed : Costed o.id fees.total_cost db)
      (free : find_reservation_by_order_id o.id db ≡ none) where
    abbrev checked_db : Db
    checked_db =
        create_trade_audit
          (record {
            order_id = o.id;
            user_id = o.user_id;
            action = risk_check_passed;
            from_status = none;
            to_status = none;
          })
          db

    hold_cost-AfterSecuring :
        (side : Side)
        → AfterSecuring request.user_id side o db
            (hold_cost policy blocked now request o fees.total_cost side checked_db)
    hold_cost-AfterSecuring sell = record {
      at = at;
      quiet = record { wallets = refl; ledger = refl; holdings = refl };
      held = refl;
    }
    hold_cost-AfterSecuring buy =
        elim (Result-cases (
          reserve_funds request.user_id o.id (D.to_number fees.total_cost) (some (7 * 24 * 60)) now
            checked_db)) [
              | inr (e, refused) ↦
                  let end : hold_cost policy blocked now request o fees.total_cost buy checked_db
                      ≡ (err e, checked_db) =
                    ground (arith, refused) in
                  rw end (record {
                    at = at;
                    quiet = record { wallets = refl; ledger = refl; holdings = refl };
                    reservations = refl;
                  })
              | inl ((id, db2), placed) ↦
                  let (wallets, ledger, holdings, orders) =
                    reserve_funds-keeps request.user_id o.id (D.to_number fees.total_cost)
                      (some (7 * 24 * 60)) now checked_db db2 id placed in
                  let (w, hold, wallet, active_hold, own, amount) =
                    reserve_funds-placed request.user_id o.id (D.to_number fees.total_cost)
                      (some (7 * 24 * 60)) now checked_db db2 id placed free in
                  let (row, found, carries) = costed in
                  let db3 =
                    create_trade_audit
                      (record {
                        order_id = o.id;
                        user_id = o.user_id;
                        action = funds_reserved;
                        from_status = none;
                        to_status = none;
                      })
                      db2 in
                  let end : hold_cost policy blocked now request o fees.total_cost buy checked_db
                      ≡ (ok tt, db3) =
                    ground (arith, placed) in
                  rw end (record {
                    at = (at.0, rw orders at.1, at.2);
                    quiet = record { wallets = wallets; ledger = ledger; holdings = holdings };
                    held = record {
                      cost = fees.total_cost;
                      costed = (row, rw orders found, carries);
                      wallet = w;
                      hold = hold;
                      found = rw wallets wallet;
                      held = active_hold;
                      own = own;
                      amount = amount;
                    };
                  })
            ]

    pub secure_order-AfterSecuring :
        AfterSecuring request.user_id request.side o db
          (secure_order policy blocked midnight now request fees o db)
    unfolding secure_order
    secure_order-AfterSecuring =
        elim (Result-cases (check_risk midnight now request.user_id fees.gross_value db)) [
          | inr (e, refused) ↦
              let end : secure_order policy blocked midnight now request fees o db ≡ (err e, db) =
                ground (arith, refused) in
              rw end (record {
                at = at;
                quiet = record { wallets = refl; ledger = refl; holdings = refl };
                reservations = refl;
              })
          | inl ((u, db1), passed) ↦
              let same =
                check_risk-reads midnight now request.user_id fees.gross_value db db1 u passed in
              let end : secure_order policy blocked midnight now request fees o db
                  ≡ hold_cost policy blocked now request o fees.total_cost request.side checked_db =
                ground (arith, passed, same) in
              rw end (hold_cost-AfterSecuring request.side)
        ]
