-- ===== src/Payments/Card.antt =====
-- Card payments, src/modules/payments/services/card-payment.service.ts: a hosted session is created,
-- authenticated and captured, or a saved card is charged. What the broker's configuration and the
-- gateway answer are arguments; cards that are saved after a payment are left out.
pub mod Settled
pub mod Capture
pub mod Backed
use pine_backend.Base.{
  ℕ, Bool, true, false, not, ◌&&◌, ◌||◌, Option, none, some, List, [], ◌∷◌, ◌++◌, Result, ok, err,
  get_or, if◌then◌else◌, Action,
}
use pine_backend.Decimals.{Decimals}
use pine_backend.Accounts.{is_none, ensure_broker}
use pine_backend.Store.Keys.{Key, client, TransactionStatus, completed, failed, is_pending}
use pine_backend.Store.Errors.{
  Error, payment_not_found, no_card_session, gateway_unavailable, payment_completed, payment_failed,
  payment_not_awaited,
}
use pine_backend.Store.Rows.{Db, Transaction, Metadata}
use pine_backend.Trading.Fees.{ResolvedFeePolicy}
use pine_backend.Wallet.Transfers.{initiate_deposit, mark_deposit_failed}
use pine_backend.Payments.Deposits.{attach_deposit_metadata, get_deposit_for_user, process_payment}
use pine_backend.Payments.Gateway.{
  AuthResponse, AuthOutcome, frictionless, challenge, not_available, rejected, Enrolment,
  enrolment_of, outcome_of, is_authenticated, BankCardPaymentStatus, success,
}

pub data CardSource : Type 0 where
  session : ℕ → CardSource
  token : ℕ → CardSource
  card_number : List ℕ → CardSource

module _ ⦃D : Decimals⦄ where
  open D use {Decimal, Number, to_number}

  pub record Charge : Type 0 where
    pub tx_ref : ℕ
    pub amount : Number
    pub source : CardSource
    pub authentication_transaction_id : Option ℕ

  -- the database, and the payments that the gateway has taken
  pub record World : Type 0 where
    pub db : Db
    pub charges : List Charge

  -- `resolveGatewayConfigForUser` first places the investor with a broker
  abbrev pub resolved : ℕ → World → World
  resolved user_id w = record w { db = (ensure_broker user_id w.db).1 }

  -- What a call is told from outside: the answer of `resolveGatewayConfigForUser`, whether the broker
  -- requires 3-D Secure, or none where it has no live gateway; a fresh session; the answers
  -- on authentication, none for a failed request; and whether the gateway takes a charge.
  pub record Gateway : Type 0 where
    pub require_3ds : Option Bool
    pub new_session : Option ℕ
    pub enrolment : Option AuthResponse
    pub authentication : Option AuthResponse
    pub verification : Option AuthResponse
    pub authentication_id : ℕ
    pub takes : Charge → Bool

  pub record Receipt : Type 0 where
    pub transaction_id : ℕ
    pub status : BankCardPaymentStatus
    pub amount : Number

  abbrev pub gross_amount : Transaction → Number
  gross_amount t = to_number (get_or t.metadata.gross_amount t.amount)

  -- the authentication of the deposit, where the gateway confirms it
  abbrev pub authenticated_id : Option ℕ → Option AuthResponse → Option ℕ
  authenticated_id none answer = none
  authenticated_id (some id) none = none
  authenticated_id (some id) (some r) = if is_authenticated r then some id else none

  module _ (policy : ResolvedFeePolicy) (blocked : ℕ → ℕ → Decimal → Db → Bool) (wired : Bool)
      (midnight now : ℕ) where
    -- `markDepositFailed`, and the answer FAILED
    abbrev pub refuse : ℕ → Receipt → World → Result Error Receipt × World
    refuse tx_ref r w = (
      ok (record r { status = BankCardPaymentStatus.failed }),
      record w { db = mark_deposit_failed (client tx_ref) w.db },
    )

    -- `processPaymentByTxRef` after a charge, with the `catch` around it
    abbrev credited :
        ℕ → Receipt → List Charge → Result Error (Unit {0}) × Db → Result Error Receipt × World
    credited tx_ref r charges (ok u, db) = (ok r, record { db = db; charges = charges })
    credited tx_ref r charges (err e, db) = refuse tx_ref r (record { db = db; charges = charges })

    -- the `try` and `catch` around a charge
    unfoldable pub capture : Gateway → Charge → Receipt → World → Result Error Receipt × World
    unfolding process_payment mark_deposit_failed
    capture g c r w =
        if g.takes c
        then credited c.tx_ref r (w.charges ++ (c ∷ []))
            (process_payment policy blocked wired midnight now c.tx_ref w.db)
        else refuse c.tx_ref r w

    abbrev receipt_of : Transaction → BankCardPaymentStatus → Receipt
    receipt_of t status = record { transaction_id = t.id; status = status; amount = gross_amount t }

    abbrev complete_verified :
        Gateway → ℕ → Transaction → ℕ → Bool → Option ℕ → Action Error World Receipt
    complete_verified g tx_ref t session_id require_3ds verified w =
        if require_3ds && is_none verified
        then refuse tx_ref (receipt_of t success) w
        else capture g
            (record {
              tx_ref = tx_ref;
              amount = gross_amount t;
              source = session session_id;
              authentication_transaction_id = verified;
            })
            (receipt_of t success) w

    abbrev complete_at :
        Gateway → ℕ → ℕ → Transaction → Option ℕ → Option Bool → Action Error World Receipt
    complete_at g user_id tx_ref t none config w = (err no_card_session, w)
    complete_at g user_id tx_ref t (some s) none w = (err gateway_unavailable, resolved user_id w)
    complete_at g user_id tx_ref t (some s) (some require_3ds) w =
        complete_verified g tx_ref t s require_3ds
          (authenticated_id t.metadata.three_ds_auth_transaction_id g.verification)
          (resolved user_id w)

    abbrev complete_deposit :
        Gateway → ℕ → ℕ → Transaction → TransactionStatus → Action Error World Receipt
    complete_deposit g user_id tx_ref t completed w = (ok (receipt_of t success), w)
    complete_deposit g user_id tx_ref t failed w =
        (ok (receipt_of t BankCardPaymentStatus.failed), w)
    complete_deposit g user_id tx_ref t _ w =
        complete_at g user_id tx_ref t t.metadata.gateway_session_id g.require_3ds w

    abbrev complete_found : Gateway → ℕ → ℕ → Option Transaction → Action Error World Receipt
    complete_found g user_id tx_ref none w = (err payment_not_found, w)
    complete_found g user_id tx_ref (some t) w = complete_deposit g user_id tx_ref t t.status w

    -- `completeSessionPayment`
    unfoldable pub complete_session_payment : Gateway → ℕ → ℕ → Action Error World Receipt
    unfolding capture ensure_broker
    complete_session_payment g user_id tx_ref w =
        complete_found g user_id tx_ref (get_deposit_for_user user_id (client tx_ref) w.db) w

    abbrev pay_for :
        Gateway
        → Charge
        → Result Error (ℕ × TransactionStatus) × Db
        → List Charge
        → Result Error Receipt × World
    pay_for g c (err e, db) charges = (err e, record { db = db; charges = charges })
    pay_for g c (ok (id, completed), db) charges = (
      ok (record { transaction_id = id; status = success; amount = c.amount }),
      record { db = db; charges = charges },
    )
    pay_for g c (ok (id, failed), db) charges = (
      ok (record { transaction_id = id; status = BankCardPaymentStatus.failed; amount = c.amount }),
      record { db = db; charges = charges },
    )
    pay_for g c (ok (id, _), db) charges =
        capture g c (record { transaction_id = id; status = success; amount = c.amount })
          (record { db = db; charges = charges })

    abbrev pay_with_token :
        Gateway
        → Bool
        → ℕ
        → Number
        → ℕ
        → Metadata
        → Option Bool
        → Option ℕ
        → Action Error World Receipt
    pay_with_token g allowed user_id amount tx_ref meta none card w =
        (err gateway_unavailable, resolved user_id w)
    pay_with_token g allowed user_id amount tx_ref meta (some r) none w =
        (err payment_not_found, resolved user_id w)
    pay_with_token g allowed user_id amount tx_ref meta (some r) (some card) w =
        pay_for g
          (record {
            tx_ref = tx_ref;
            amount = amount;
            source = token card;
            authentication_transaction_id = none;
          })
          (initiate_deposit allowed policy user_id amount (some (client tx_ref)) meta
            (resolved user_id w).db)
          w.charges

    -- `payWithSavedCard`. `card` is what `getChargeableToken` answers.
    unfoldable pub pay_with_saved_card :
        Gateway → Bool → Option ℕ → ℕ → Number → ℕ → Metadata → Action Error World Receipt
    unfolding capture initiate_deposit ensure_broker
    pay_with_saved_card g allowed card user_id amount tx_ref meta w =
        pay_with_token g allowed user_id amount tx_ref meta g.require_3ds card w
