-- ===== src/Payments/Card/Capture.antt =====
-- A hosted session is captured at most once, and only as its stored deposit says.
use pine_backend.Base.{
  ℕ, ◌+◌, ◌≤◌, ◌≡◌, refl, ◌⊎◌, inl, inr, ◌==◌, ==_iff, Bool, true, ◌&&◌, Option, none, some, List,
  [], ◌∷◌, ◌++◌, ok, length, length-append, find?-test, find?-All, arith, Bool-cases, Option-cases,
  ap, sym, subst, ◌∙◌,
}
use pine_backend.Decimals.{Decimals}
use pine_backend.Accounts.{is_none}
use pine_backend.Store.Keys.{
  client, has_key, is_deposit, TransactionStatus, pending, processing, completed, failed,
}
use pine_backend.Store.Rows.{Db, Transaction}
use pine_backend.Store.Lookups.{find_wallet_by_id}
use pine_backend.Trading.Fees.{ResolvedFeePolicy}
use pine_backend.Trading.Submission.Steps.{Result-cases}
use pine_backend.Wallet.Transfers.{process_deposit, mark_deposit_failed}
use pine_backend.Wallet.Transfers.Cash.{process_deposit-IsProcessed}
use pine_backend.Payments.Deposits.{
  find_pending_deposit, get_deposit_for_user, process_payment, owned_by,
}
use pine_backend.Payments.Deposits.Credits.{
  process_payment_credits, process_payment_idle, process_payment_fails,
}
use pine_backend.Payments.Gateway.{success}
use pine_backend.Payments.Card.{
  CardSource, session, Charge, World, Gateway, Receipt, gross_amount, authenticated_id, capture,
  refuse, credited, resolved, complete_at, receipt_of, complete_deposit, complete_session_payment,
}
use pine_backend.Payments.Card.Settled.{
  is_under, is_final, IsOneDeposit, IsSettled, completing_settles, failing_settles,
  no_pending_settles, pending_is_one, ensure_broker-transactions,
}

module _ ⦃D : Decimals⦄ where
  open D use {Decimal}

  module _ (policy : ResolvedFeePolicy) (blocked : ℕ → ℕ → Decimal → Db → Bool) (wired : Bool)
      (midnight now : ℕ) where
    -- Either no transaction was written and no charge made, or every deposit under the reference is
    -- closed and at most one charge was made.
    abbrev Closed : ℕ → World → World → Type 0
    Closed tx_ref w w' =
        IsSettled (client tx_ref) w'.db.transactions × (length w'.charges ≤ length w.charges + 1)

    abbrev Idle : World → World → Type 0
    Idle w w' = (w'.db.transactions ≡ w.db.transactions) × (w'.charges ≡ w.charges)

    abbrev Ended : ℕ → World → World → Type 0
    Ended tx_ref w w' = Idle w w' ⊎ Closed tx_ref w w'

    module _ (g : Gateway) (tx_ref id : ℕ) where
      refuse_ends :
          (r : Receipt) (w : World) (cs : List Charge)
          → IsOneDeposit (client tx_ref) id w.db.transactions
          → length cs ≤ length w.charges + 1
          → Closed tx_ref w
              (refuse policy blocked wired midnight now tx_ref r (record w { charges = cs })).1
      unfolding mark_deposit_failed
      refuse_ends r w cs one short =
          (failing_settles (client tx_ref) id w.db.transactions one, short)

      credited_ends :
          (r : Receipt) (w : World) (cs : List Charge)
          → IsOneDeposit (client tx_ref) id w.db.transactions
          → length cs ≤ length w.charges + 1
          → Closed tx_ref w
              (credited policy blocked wired midnight now tx_ref r cs
                (process_payment policy blocked wired midnight now tx_ref w.db)).1
      credited_ends r w cs one short =
          elim (Option-cases (find_pending_deposit (client tx_ref) w.db)) [
            | inl missing ↦
                rw (process_payment_idle policy blocked wired midnight now tx_ref w.db missing)
                  (no_pending_settles (client tx_ref) id w.db.transactions one missing, short)
            | inr (p, found) ↦ elim (Result-cases (process_deposit p.id w.db)) [
              | inr (e, unpaid) ↦
                  rw
                    (process_payment_fails policy blocked wired midnight now tx_ref p w.db e found
                      unpaid)
                    (refuse_ends r w cs one short)
              | inl ((u, db'), paid) ↦
                  let (t, v, row, wallet, done) =
                    process_deposit-IsProcessed p.id w.db db' u paid in
                  let answer =
                    process_payment_credits policy blocked wired midnight now tx_ref p w.db db' u
                      found paid in
                  let same : (t.id == p.id) ≡ true =
                    find?-test (λ (x : Transaction). x.id == p.id) w.db.transactions t row in
                  let own : t.id ≡ id =
                    (==_iff _ _).0 same ∙ pending_is_one (client tx_ref) id w.db p one found in
                  let settled : IsSettled (client tx_ref) db'.transactions =
                    rw (done.transactions, own)
                      (completing_settles (client tx_ref) id w.db.transactions one) in
                  let after = process_payment policy blocked wired midnight now tx_ref w.db in
                  let end : after ≡ (ok tt, after.1) = ap (λ z. (z, after.1)) answer.0 in
                  subst
                    (λ x.
                      Closed tx_ref w (credited policy blocked wired midnight now tx_ref r cs x).1)
                    (sym end) (rw answer.1.transactions settled, short)
            ]
          ]

      abbrev charge_of : D.Number → CardSource → Option ℕ → Charge
      charge_of amount source verified = record {
        tx_ref = tx_ref;
        amount = amount;
        source = source;
        authentication_transaction_id = verified;
      }

      capture_ends :
          (amount : D.Number) (source : CardSource) (verified : Option ℕ) (r : Receipt) (w : World)
          → IsOneDeposit (client tx_ref) id w.db.transactions
          → Closed tx_ref w
              (capture policy blocked wired midnight now g (charge_of amount source verified) r w).1
      unfolding capture
      capture_ends amount source verified r w one =
          let c = charge_of amount source verified in
          let short : length (w.charges ++ c ∷ []) ≤ length w.charges + 1 =
            omega (arith, length-append w.charges (c ∷ [])) in
          elim (Bool-cases (g.takes c)) [
            | inl taken ↦ rw taken (credited_ends r w (w.charges ++ c ∷ []) one short)
            | inr declined ↦ rw declined (refuse_ends r w w.charges one (omega arith))
          ]

      at_ends :
          (user_id : ℕ) (t : Transaction) (session_id : Option ℕ) (config : Option Bool) (w : World)
          → IsOneDeposit (client tx_ref) id w.db.transactions
          → Ended tx_ref w
              (complete_at policy blocked wired midnight now g user_id tx_ref t session_id config
                w).1
      at_ends user_id t none config w one = inl (refl, refl)
      at_ends user_id t (some s) none w one = inl (ensure_broker-transactions user_id w.db, refl)
      at_ends user_id t (some s) (some required) w one =
          let verified = authenticated_id t.metadata.three_ds_auth_transaction_id g.verification in
          let r = receipt_of policy blocked wired midnight now t success in
          let placed = resolved user_id w in
          let still : IsOneDeposit (client tx_ref) id placed.db.transactions =
            rw (ensure_broker-transactions user_id w.db) one in
          elim (Bool-cases (required && is_none verified)) [
            | inl stopped ↦ rw stopped (inr (refuse_ends r placed w.charges still (omega arith)))
            | inr passed ↦
                rw passed (inr (capture_ends (gross_amount t) (session s) verified r placed still))
          ]

      deposit_ends :
          (user_id : ℕ) (t : Transaction) (status : TransactionStatus) (w : World)
          → IsOneDeposit (client tx_ref) id w.db.transactions
          → Ended tx_ref w
              (complete_deposit policy blocked wired midnight now g user_id tx_ref t status w).1
      deposit_ends user_id t completed w one = inl (refl, refl)
      deposit_ends user_id t failed w one = inl (refl, refl)
      deposit_ends user_id t pending w one =
          at_ends user_id t t.metadata.gateway_session_id g.require_3ds w one
      deposit_ends user_id t processing w one =
          at_ends user_id t t.metadata.gateway_session_id g.require_3ds w one

      complete_ends :
          (user_id : ℕ) (w : World)
          → IsOneDeposit (client tx_ref) id w.db.transactions
          → Ended tx_ref w
              (complete_session_payment policy blocked wired midnight now g user_id tx_ref w).1
      unfolding complete_session_payment
      complete_ends user_id w one =
          elim (Option-cases (get_deposit_for_user user_id (client tx_ref) w.db)) [
            | inl missing ↦ rw missing (inl (refl, refl))
            | inr (t, found) ↦ rw found (deposit_ends user_id t t.status w one)
          ]

      -- once the deposit is closed, nothing is written again
      closed_deposit :
          (user_id : ℕ) (t : Transaction) (status : TransactionStatus) (w : World)
          → is_final status ≡ true
          → (complete_deposit policy blocked wired midnight now g user_id tx_ref t status w).1 ≡ w
      closed_deposit user_id t completed w final = refl
      closed_deposit user_id t failed w final = refl
      closed_deposit user_id t pending w final = cc
      closed_deposit user_id t processing w final = cc

      settled_stays :
          (user_id : ℕ) (w : World)
          → IsSettled (client tx_ref) w.db.transactions
          → (complete_session_payment policy blocked wired midnight now g user_id tx_ref w).1 ≡ w
      unfolding complete_session_payment
      settled_stays user_id w settled =
          elim (Option-cases (get_deposit_for_user user_id (client tx_ref) w.db)) [
            | inl missing ↦ rw missing refl
            | inr (t, found) ↦
                let mine = λ (x : Transaction).
                  has_key (client tx_ref) x.idempotency_key
                  && is_deposit x.type
                  && owned_by user_id (find_wallet_by_id x.wallet_id w.db) in
                let passed = find?-test mine w.db.transactions t found in
                let final : is_final t.status ≡ true =
                  find?-All (λ x. is_under (client tx_ref) x ≡ true → is_final x.status ≡ true) mine
                    w.db.transactions t settled found (ground arith) in
                rw found (closed_deposit user_id t t.status w final)
          ]

    -- A user that asks for the capture, and what the gateway answers.
    pub record Attempt : Type 0 where
      pub user_id : ℕ
      pub gateway : Gateway

    abbrev pub complete_all : ℕ → List Attempt → World → World
    complete_all tx_ref [] w = w
    complete_all tx_ref (a ∷ rest) w =
        complete_all tx_ref rest
          (complete_session_payment policy blocked wired midnight now a.gateway a.user_id tx_ref
            w).1

    all_settled :
        (tx_ref : ℕ) (attempts : List Attempt) (w : World)
        → IsSettled (client tx_ref) w.db.transactions
        → complete_all tx_ref attempts w ≡ w
    all_settled tx_ref [] w settled = refl
    all_settled tx_ref (a ∷ rest) w settled =
        rw (settled_stays a.gateway tx_ref 0 a.user_id w settled)
          (all_settled tx_ref rest w settled)

    -- However often, by whomever and with whatever answers of the gateway a hosted session is
    -- completed, one call after the other, it is charged at most once, where the deposits under its
    -- reference are one deposit and that deposit is PENDING, COMPLETED or FAILED.
    pub complete_all-charges_once :
        (tx_ref id : ℕ) (attempts : List Attempt) (w : World)
        → IsOneDeposit (client tx_ref) id w.db.transactions
        → length (complete_all tx_ref attempts w).charges ≤ length w.charges + 1
    complete_all-charges_once tx_ref id [] w one = omega arith
    complete_all-charges_once tx_ref id (a ∷ rest) w one =
        elim (complete_ends a.gateway tx_ref id a.user_id w one) [
          | inl (rows, charges) ↦
              let after =
                (complete_session_payment policy blocked wired midnight now a.gateway a.user_id
                  tx_ref w).1 in
              rw charges at (complete_all-charges_once tx_ref id rest after (rw rows one))
          | inr (settled, short) ↦
              let after =
                (complete_session_payment policy blocked wired midnight now a.gateway a.user_id
                  tx_ref w).1 in
              rw (all_settled tx_ref rest after settled) short
        ]
