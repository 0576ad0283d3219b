-- ===== src/Payments/Direct.antt =====
-- A payment with the card's own number, `initiateCardPayment` and `validateCard` of
-- src/modules/payments/services/card-payment.service.ts. The clock's verdict on the card's expiry is an
-- argument, and a saved card that is decrypted into the request comes as its number.
use pine_backend.Base.{
  ℕ, Bool, not, ◌&&◌, Option, none, some, List, Result, ok, err, if◌then◌else◌, Tx, throw_if, ◌>>◌,
  Action,
}
use pine_backend.Decimals.{Decimals}
use pine_backend.Store.Keys.{client, TransactionStatus, completed, failed}
use pine_backend.Store.Errors.{
  Error, gateway_unavailable, card_number_invalid, card_expired, test_not_available,
}
use pine_backend.Store.Rows.{Db, Metadata}
use pine_backend.Accounts.{ensure_broker}
use pine_backend.Trading.Fees.{ResolvedFeePolicy}
use pine_backend.Wallet.Transfers.{initiate_deposit}
use pine_backend.Payments.Gateway.{BankCardPaymentStatus, success}
use pine_backend.Payments.Luhn.{luhn_valid}
use pine_backend.Payments.Card.{card_number, Charge, World, Gateway, Receipt, resolved, capture}

module _ ⦃D : Decimals⦄ where
  open D use {Decimal, Number}

  -- the request, with whether the card's last month has passed
  pub record CardPayment : Type 0 where
    pub user_id : ℕ
    pub tx_ref : ℕ
    pub amount : Number
    pub number : List ℕ
    pub is_expired : Bool
    pub test_mode : Bool
    pub metadata : Metadata

  -- `isProduction` and `allowTestTransactions`
  pub record AppConfig : Type 0 where
    pub is_production : Bool
    pub allow_test_transactions : Bool

  -- `validateCard`, and the guard on test transactions
  unfoldable pub validate_payment : AppConfig → CardPayment → Tx Error World (Unit {0})
  unfolding luhn_valid
  validate_payment app p = do
    throw_if (not (luhn_valid p.number)) card_number_invalid
    throw_if p.is_expired card_expired
    throw_if (p.test_mode && app.is_production && not app.allow_test_transactions)
        test_not_available

  abbrev receipt_with : CardPayment → ℕ → BankCardPaymentStatus → Receipt
  receipt_with p id status = record { transaction_id = id; status = status; amount = p.amount }

  module _ (policy : ResolvedFeePolicy) (blocked : ℕ → ℕ → Decimal → Db → Bool) (wired : Bool)
      (midnight now : ℕ) where
    abbrev charge_card : Gateway → CardPayment → ℕ → World → Result Error Receipt × World
    charge_card g p id w =
        capture policy blocked wired midnight now g
          (record {
            tx_ref = p.tx_ref;
            amount = p.amount;
            source = card_number p.number;
            authentication_transaction_id = none;
          })
          (receipt_with p id success) w

    abbrev charge_live :
        Gateway → CardPayment → ℕ → Option Bool → World → Result Error Receipt × World
    charge_live g p id none w = (err gateway_unavailable, w)
    charge_live g p id (some r) w = charge_card g p id w

    -- `testMode ? this.mockGateway : await this.brokerGatewayOrThrow(user.id)`
    abbrev charge_by_mode :
        Gateway → (Charge → Bool) → CardPayment → ℕ → World → Result Error Receipt × World
    charge_by_mode g mock p id w =
        if p.test_mode
        then charge_card (record g { takes = mock }) p id w
        else charge_live g p id g.require_3ds (resolved p.user_id w)

    abbrev pay_deposit :
        Gateway
        → (Charge → Bool)
        → CardPayment
        → Result Error (ℕ × TransactionStatus) × Db
        → World
        → Result Error Receipt × World
    pay_deposit g mock p (err e, db) w = (err e, record w { db = db })
    pay_deposit g mock p (ok (id, completed), db) w =
        (ok (receipt_with p id success), record w { db = db })
    pay_deposit g mock p (ok (id, failed), db) w =
        (ok (receipt_with p id BankCardPaymentStatus.failed), record w { db = db })
    pay_deposit g mock p (ok (id, _), db) w = charge_by_mode g mock p id (record w { db = db })

    abbrev pay_valid :
        Gateway
        → (Charge → Bool)
        → Bool
        → CardPayment
        → Result Error (Unit {0} × World)
        → World
        → Result Error Receipt × World
    pay_valid g mock allowed p (err e) w = (err e, w)
    pay_valid g mock allowed p (ok (u, w1)) w =
        pay_deposit g mock p
          (initiate_deposit allowed policy p.user_id p.amount (some (client p.tx_ref)) p.metadata
            w.db)
          w

    -- `initiateCardPayment`. `mock` is what the mock gateway takes.
    unfoldable pub initiate_card_payment :
        AppConfig → Gateway → (Charge → Bool) → Bool → CardPayment → Action Error World Receipt
    unfolding validate_payment initiate_deposit capture ensure_broker
    initiate_card_payment app g mock allowed p w =
        pay_valid g mock allowed p (validate_payment app p w) w
