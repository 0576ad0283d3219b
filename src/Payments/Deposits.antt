-- ===== src/Payments/Deposits.antt =====
-- A deposit by the reference of its payment, src/modules/wallet/services/wallet.service.ts: read,
-- given the facts of its payment session, and credited once the gateway has confirmed it.
pub mod Credits
use pine_backend.Base.{
  ℕ, Bool, true, false, not, ◌&&◌, ◌||◌, Option, none, some, Result, ok, err, ◌==◌, if◌then◌else◌,
  find?, update_where, Action, transaction,
}
use pine_backend.Decimals.{Decimals}
use pine_backend.Store.Keys.{Key, client, purchase, has_key, is_deposit, is_pending}
use pine_backend.Store.Errors.{Error}
use pine_backend.Store.Rows.{Db, Wallet, Transaction, Metadata, market}
use pine_backend.Store.Lookups.{find_wallet_by_id}
use pine_backend.Accounts.{find_user}
use pine_backend.Trading.Fees.{buy, ResolvedFeePolicy}
use pine_backend.Trading.Orders.{OrderRequest}
use pine_backend.Trading.Submission.{submit_order}
use pine_backend.Wallet.Transfers.{process_deposit}

module _ ⦃D : Decimals⦄ where
  open D use {Decimal, Number, literal, num_lt}

  -- any user's deposit under the key: it is not looked up by wallet
  abbrev pub find_pending_deposit : Key → Db → Option Transaction
  find_pending_deposit tx_ref db =
      find?
        (λ (t : Transaction).
          has_key tx_ref t.idempotency_key && is_deposit t.type && is_pending t.status)
        db.transactions

  abbrev pub patch_found : (Metadata → Metadata) → Option Transaction → Db → Db
  patch_found patch none db = db
  patch_found patch (some found) db = record db {
    transactions =
        update_where (λ (t : Transaction). t.id == found.id)
          (λ (t : Transaction). record t { metadata = patch found.metadata }) db.transactions;
  }

  -- `attachDepositMetadata`: the patch, which cannot reach the amount
  unfoldable pub attach_deposit_metadata : Key → (Metadata → Metadata) → Db → Db
  attach_deposit_metadata tx_ref patch db = patch_found patch (find_pending_deposit tx_ref db) db

  abbrev pub owned_by : ℕ → Option Wallet → Bool
  owned_by user_id none = false
  owned_by user_id (some w) = w.user_id == user_id

  -- `getDepositForUser`
  abbrev pub get_deposit_for_user : ℕ → Key → Db → Option Transaction
  get_deposit_for_user user_id tx_ref db =
      find?
        (λ (t : Transaction).
          has_key tx_ref t.idempotency_key
          && is_deposit t.type
          && owned_by user_id (find_wallet_by_id t.wallet_id db))
        db.transactions

  -- `!!n` of a number
  abbrev truthy : Number → Bool
  truthy n = num_lt n (literal 0 0) || num_lt (literal 0 0) n

  -- the buy order of a payment that has a symbol and a quantity
  abbrev purchase_of : ℕ → Key → Metadata → Option OrderRequest
  purchase_of user_id order_key meta = elim meta.stock_symbol [
    | none ↦ none
    | some symbol ↦ elim meta.quantity [
      | none ↦ none
      | some quantity ↦
          if truthy quantity
          then some (record {
            user_id = user_id;
            stock_symbol = symbol;
            side = buy;
            type = market;
            quantity = quantity;
            limit_price = none;
            idempotency_key = some order_key;
          })
          else none
    ]
  ]

  abbrev owner_of : Option Wallet → ℕ
  owner_of none = 0
  owner_of (some w) = w.user_id

  abbrev claim_of : ℕ → Db → Bool
  claim_of user_id db = elim (find_user user_id db) [ none ↦ true | some u ↦ u.kyc_approved ]

  module _ (policy : ResolvedFeePolicy) (blocked : ℕ → ℕ → Decimal → Db → Bool) where
    -- the `try` and `catch` around `submitBuyOrder`: its answer and its error are only logged
    abbrev submit_purchase : ℕ → ℕ → Option OrderRequest → Db → Db
    submit_purchase midnight now none db = db
    submit_purchase midnight now (some request) db =
        (submit_order policy blocked midnight now request (claim_of request.user_id db) db).1

    -- what follows the credit. `wired` is whether the trading service is there.
    unfoldable pub buy_shares : Bool → ℕ → ℕ → ℕ → Key → Metadata → Db → Db
    buy_shares wired midnight now user_id order_key meta db =
        if meta.is_purchase && wired
        then submit_purchase midnight now (purchase_of user_id order_key meta) db
        else db

    abbrev credit_then_buy :
        Bool
        → ℕ
        → ℕ
        → ℕ
        → Key
        → Metadata
        → Result Error (Unit {0}) × Db
        → Result Error (Unit {0}) × Db
    credit_then_buy wired midnight now user_id order_key meta (err e, db) = (err e, db)
    credit_then_buy wired midnight now user_id order_key meta (ok u, db) =
        (ok tt, buy_shares wired midnight now user_id order_key meta db)

    abbrev process_found : Bool → ℕ → ℕ → Key → Option Transaction → Action Error Db (Unit {0})
    process_found wired midnight now order_key none db = (ok tt, db)
    process_found wired midnight now order_key (some t) db =
        credit_then_buy wired midnight now (owner_of (find_wallet_by_id t.wallet_id db)) order_key
          t.metadata (transaction (process_deposit t.id) db)

    -- `processPaymentByTxRef`, for the reference `client tx_ref`
    unfoldable pub process_payment : Bool → ℕ → ℕ → ℕ → Action Error Db (Unit {0})
    unfolding buy_shares
    process_payment wired midnight now tx_ref db =
        process_found wired midnight now (purchase tx_ref) (find_pending_deposit (client tx_ref) db)
          db
