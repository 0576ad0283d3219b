-- ===== src/Payments/Hosted.antt =====
-- The first two steps of a hosted session, `createPaymentSession` and `authenticateCardSession` of
-- src/modules/payments/services/card-payment.service.ts. Of what they attach to the deposit, the
-- session and the id of the authentication are kept.
pub mod Price
use pine_backend.Base.{
  ℕ, ◌≡◌, refl, Bool, true, false, not, ◌&&◌, ◌||◌, Option, none, some, Result, ok, err,
  if◌then◌else◌, Action, find?, find?-update_where, find?-test, ◌==◌, ==_iff, arith, Bool-cases,
  Option-cases, inl, inr,
}
use pine_backend.Decimals.{Decimals}
use pine_backend.Store.Keys.{
  client, TransactionStatus, pending, completed, failed, is_pending, has_key, is_deposit,
}
use pine_backend.Store.Errors.{
  Error, payment_not_found, no_card_session, gateway_unavailable, payment_completed, payment_failed,
  payment_not_awaited,
}
use pine_backend.Store.Rows.{Db, Transaction, Metadata}
use pine_backend.Store.Lookups.{find_wallet_by_id}
use pine_backend.Accounts.{ensure_broker}
use pine_backend.Trading.Fees.{ResolvedFeePolicy}
use pine_backend.Wallet.Transfers.{initiate_deposit}
use pine_backend.Payments.Deposits.{
  find_pending_deposit, attach_deposit_metadata, get_deposit_for_user, owned_by,
}
use pine_backend.Payments.Gateway.{
  AuthResponse, AuthOutcome, challenge, not_available, rejected, enrolment_of, outcome_of,
}
use pine_backend.Payments.Card.{World, Gateway, resolved, gross_amount}

pub record AuthReply : Type 0 where
  pub outcome : AuthOutcome
  pub can_proceed : Bool

abbrev proceeds : AuthOutcome → Bool
proceeds rejected = false
proceeds challenge = false
proceeds _ = true

-- the `catch`
abbrev without_gateway : Bool → AuthReply
without_gateway true = record { outcome = rejected; can_proceed = false }
without_gateway false = record { outcome = not_available; can_proceed = true }

module _ ⦃D : Decimals⦄ where
  open D use {Number}

  pub record CardSession : Type 0 where
    pub transaction_id : ℕ
    pub session_id : ℕ
    pub amount : Number

  abbrev attach : ℕ → (Metadata → Metadata) → World → World
  attach tx_ref patch w = record w { db = attach_deposit_metadata (client tx_ref) patch w.db }

  abbrev open_session : ℕ → ℕ → Number → Option ℕ → Action Error World CardSession
  open_session tx_ref id amount none w = (err gateway_unavailable, w)
  open_session tx_ref id amount (some s) w = (
    ok (record { transaction_id = id; session_id = s; amount = amount }),
    attach tx_ref (λ (m : Metadata). record m { gateway_session_id = some s }) w,
  )

  abbrev session_for :
      Gateway
      → ℕ
      → Number
      → Result Error (ℕ × TransactionStatus) × Db
      → World
      → Result Error CardSession × World
  session_for g tx_ref amount (err e, db) w = (err e, record w { db = db })
  session_for g tx_ref amount (ok (id, completed), db) w =
      (err payment_completed, record w { db = db })
  session_for g tx_ref amount (ok (id, failed), db) w = (err payment_failed, record w { db = db })
  session_for g tx_ref amount (ok (id, _), db) w =
      open_session tx_ref id amount g.new_session (record w { db = db })

  abbrev session_at :
      ResolvedFeePolicy
      → Gateway
      → Bool
      → ℕ
      → Number
      → ℕ
      → Metadata
      → Option Bool
      → Action Error World CardSession
  session_at policy g allowed user_id amount tx_ref meta none w = (err gateway_unavailable, w)
  session_at policy g allowed user_id amount tx_ref meta (some r) w =
      session_for g tx_ref amount
        (initiate_deposit allowed policy user_id amount (some (client tx_ref)) meta w.db) w

  -- `createPaymentSession`
  unfoldable pub create_payment_session :
      ResolvedFeePolicy
      → Gateway
      → Bool
      → ℕ
      → Number
      → ℕ
      → Metadata
      → Action Error World CardSession
  unfolding initiate_deposit attach_deposit_metadata ensure_broker
  create_payment_session policy g allowed user_id amount tx_ref meta w =
      session_at policy g allowed user_id amount tx_ref meta g.require_3ds (resolved user_id w)

  abbrev authenticate_payer : Gateway → ℕ → Bool → Option AuthResponse → World → AuthReply × World
  authenticate_payer g tx_ref required none w = (without_gateway required, w)
  authenticate_payer g tx_ref required (some a) w =
      let outcome = outcome_of a in
      (
        record { outcome = outcome; can_proceed = proceeds outcome },
        attach tx_ref
            (λ (m : Metadata). record m { three_ds_auth_transaction_id = some g.authentication_id })
            w,
      )

  abbrev authenticate_enrolled :
      Gateway → ℕ → Bool → Option AuthResponse → World → AuthReply × World
  authenticate_enrolled g tx_ref required none w = (without_gateway required, w)
  authenticate_enrolled g tx_ref required (some r) w =
      let e = enrolment_of r in
      if not e.available || e.do_not_proceed
      then (record { outcome = not_available; can_proceed = not (required || e.do_not_proceed) }, w)
      else authenticate_payer g tx_ref required g.authentication w

  abbrev answered : AuthReply × World → Result Error AuthReply × World
  answered (r, w) = (ok r, w)

  abbrev authenticate_at : Gateway → ℕ → ℕ → Option ℕ → Option Bool → Action Error World AuthReply
  authenticate_at g user_id tx_ref none config w = (err no_card_session, w)
  authenticate_at g user_id tx_ref (some s) none w = (err gateway_unavailable, resolved user_id w)
  authenticate_at g user_id tx_ref (some s) (some required) w =
      answered (authenticate_enrolled g tx_ref required g.enrolment (resolved user_id w))

  abbrev authenticate_found : Gateway → ℕ → ℕ → Option Transaction → Action Error World AuthReply
  authenticate_found g user_id tx_ref none w = (err payment_not_found, w)
  authenticate_found g user_id tx_ref (some t) w =
      if is_pending t.status
      then authenticate_at g user_id tx_ref t.metadata.gateway_session_id g.require_3ds w
      else (err payment_not_awaited, w)

  -- `authenticateCardSession`
  unfoldable pub authenticate_card_session : Gateway → ℕ → ℕ → Action Error World AuthReply
  unfolding attach_deposit_metadata outcome_of ensure_broker
  authenticate_card_session g user_id tx_ref w =
      authenticate_found g user_id tx_ref (get_deposit_for_user user_id (client tx_ref) w.db) w
