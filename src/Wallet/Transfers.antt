-- ===== src/Wallet/Transfers.antt =====
-- Deposits and withdrawals, src/modules/wallet/services/wallet.service.ts. A transaction is created
-- PENDING, and a later call processes it through the ledger or fails it.
pub mod Cash
pub mod States
use pine_backend.Base.{
  Result, ok, err, ℕ, suc, ◌+◌, Bool, true, false, not, ◌&&◌, Option, none, some, List, [], ◌∷◌,
  ◌++◌, ◌==◌, if◌then◌else◌, get_or, find?, update_where, Tx, Action, transaction, pure, gets,
  modify, throw_if, or_throw, ◌>>=◌, ◌>>◌,
}
use pine_backend.Decimals.{Decimals, nought}
use pine_backend.Store.Keys.{
  Key, has_key, TransactionType, deposit, withdrawal, is_deposit, is_withdrawal, TransactionStatus,
  pending, completed, failed, is_pending, user_wallet, platform_cash, platform_fee_revenue, debit,
  credit,
}
use pine_backend.Store.Errors.{
  Error, record_not_found, wallet_not_found, wallet_frozen, insufficient_funds, amount_not_positive,
  already_processed, withdrawal_not_found, deposit_refused,
}
use pine_backend.Accounts.{ensure_broker, require_broker}
use pine_backend.Store.Rows.{Metadata, no_metadata, Db, Wallet, Transaction, LedgerEntry}
use pine_backend.Store.Lookups.{
  find_wallet_by_id, find_wallet_by_user_id, find_transaction_by_id,
  find_transaction_by_idempotency_key, sum_active_reservations, sum_pending_withdrawals,
  same_version, posted_to,
}
use pine_backend.Trading.Fees.{ResolvedFeePolicy, deposit_breakdown}

module _ ⦃D : Decimals⦄ where
  open D use {
    Decimal, Number, add, sub, lt, gt, lte, of_number, store, increment, decrement, num_lt, literal,
  }

  -- `createTransaction`, always PENDING
  abbrev pub create_transaction :
      ℕ → TransactionType → Decimal → Option Key → Option Decimal → Metadata → Tx Error Db ℕ
  create_transaction wallet_id type amount key fee meta db =
      (do
        id ← gets (λ (d : Db). d.next)
        modify λ (d : Db). record d {
          transactions =
              d.transactions
              ++ (record {
                id = d.next;
                wallet_id = wallet_id;
                type = type;
                status = pending;
                amount = store amount;
                idempotency_key = key;
                related_order_id = none;
                processing_fee = fee;
                metadata = meta;
              }
                  ∷ []);
          next = suc d.next;
        }
        pure id)
        db

  abbrev pub find_by_key : ℕ → Option Key → Db → Option Transaction
  find_by_key wallet_id none db = none
  find_by_key wallet_id (some key) db = find_transaction_by_idempotency_key wallet_id key db

  -- `ensureWallet`: the user's wallet, created empty where there is none
  abbrev pub ensure_wallet : ℕ → Db → ℕ × Db
  ensure_wallet user_id db = elim (find_wallet_by_user_id user_id db) [
    | some w ↦ (w.id, db)
    | none ↦ (
      db.next,
      record db {
        wallets =
            db.wallets
            ++ (record {
              id = db.next;
              user_id = user_id;
              balance = nought;
              is_frozen = false;
              version = 0;
            }
                ∷ []);
        next = suc db.next;
      },
    )
  ]

  -- `params.amount <= 0` on a number
  abbrev not_positive : Number → Bool
  not_positive amount = not (num_lt (literal 0 0) amount)

  -- what `initiateDeposit` does in the user's wallet: its only write comes last
  unfoldable pub deposit_into :
      Bool
      → ResolvedFeePolicy
      → ℕ
      → Number
      → Option Key
      → Metadata
      → Tx Error Db (ℕ × TransactionStatus)
  unfolding deposit_breakdown
  deposit_into allowed policy wallet_id amount key meta = do
    wallet ← or_throw (← gets (find_wallet_by_id wallet_id)) wallet_not_found
    throw_if wallet.is_frozen wallet_frozen
    throw_if (not_positive amount) amount_not_positive
    throw_if (not allowed) deposit_refused
    existing ← gets (find_by_key wallet.id key)
    elim existing [
      | some t ↦ pure (t.id, t.status)
      | none ↦
          let breakdown = deposit_breakdown policy (of_number amount) in
          create_transaction wallet.id deposit breakdown.net_amount key
            (some breakdown.processing_fee)
            (record meta { gross_amount = some breakdown.gross_amount })
          >>= λ id. pure (id, pending)
    ]

  -- from the wallet on: one that was created stays, whatever follows
  abbrev deposit_for :
      Bool
      → ResolvedFeePolicy
      → ℕ
      → Number
      → Option Key
      → Metadata
      → Action Error Db (ℕ × TransactionStatus)
  deposit_for allowed policy user_id amount key meta db =
      let (wallet_id, db1) = ensure_wallet user_id db in
      transaction (deposit_into allowed policy wallet_id amount key meta) db1

  abbrev with_broker :
      Result Error (Unit {0} × Db)
      → Action Error Db (ℕ × TransactionStatus)
      → Action Error Db (ℕ × TransactionStatus)
  with_broker (err e) next db = (err e, db)
  with_broker (ok (u, db1)) next db = next db1

  -- `initiateDeposit`. The answer of the broker's deposit limits (RiskPolicyService) is the argument
  -- `allowed`, and `policy` is the broker's fee schedule.
  unfoldable pub initiate_deposit :
      Bool
      → ResolvedFeePolicy
      → ℕ
      → Number
      → Option Key
      → Metadata
      → Action Error Db (ℕ × TransactionStatus)
  unfolding deposit_into ensure_broker require_broker
  initiate_deposit allowed policy user_id amount key meta db =
      let (placed, db1) = ensure_broker user_id db in
      with_broker (require_broker user_id db1) (deposit_for allowed policy user_id amount key meta)
        db1

  -- balance less active holds less withdrawals in flight
  abbrev pub available_for_withdrawal : Wallet → Db → Decimal
  available_for_withdrawal w db =
      sub (sub w.balance (sum_active_reservations w.id db)) (sum_pending_withdrawals w.id db)

  -- what `initiateWithdrawal` does in the user's wallet
  unfoldable pub withdraw_from : ℕ → Number → Option Key → Tx Error Db (ℕ × TransactionStatus)
  withdraw_from wallet_id amount key = do
    wallet ← or_throw (← gets (find_wallet_by_id wallet_id)) wallet_not_found
    throw_if wallet.is_frozen wallet_frozen
    throw_if (not_positive amount) amount_not_positive
    available ← gets (available_for_withdrawal wallet)
    throw_if (lt available (of_number amount)) insufficient_funds
    existing ← gets (find_by_key wallet.id key)
    elim existing [
      | some t ↦ pure (t.id, t.status)
      | none ↦
          create_transaction wallet.id withdrawal (of_number amount) key none no_metadata >>= λ id.
          pure (id, pending)
    ]

  -- `initiateWithdrawal`
  unfoldable pub initiate_withdrawal :
      ℕ → Number → Option Key → Action Error Db (ℕ × TransactionStatus)
  unfolding withdraw_from
  initiate_withdrawal user_id amount key db =
      let (wallet_id, db1) = ensure_wallet user_id db in
      transaction (withdraw_from wallet_id amount key) db1

  abbrev pub set_transaction_status : ℕ → TransactionStatus → List Transaction → List Transaction
  set_transaction_status id status =
      update_where (λ (t : Transaction). t.id == id)
        (λ (t : Transaction). record t { status = status })

  -- `rejectWithdrawal`: FAILED, no money moves
  unfoldable pub reject_withdrawal : ℕ → Tx Error Db (Unit {0})
  reject_withdrawal id = do
    t ← or_throw (← gets (find_transaction_by_id id)) withdrawal_not_found
    throw_if (not (is_withdrawal t.type)) withdrawal_not_found
    throw_if (not (is_pending t.status)) already_processed
    modify
        λ (db : Db). record db { transactions = set_transaction_status id failed db.transactions }

  -- `markDepositFailed`, on every pending deposit under the key
  unfoldable pub mark_deposit_failed : Key → Db → Db
  mark_deposit_failed tx_ref db = record db {
    transactions =
        update_where
          (λ (t : Transaction).
            has_key tx_ref t.idempotency_key && is_deposit t.type && is_pending t.status)
          (λ (t : Transaction). record t { status = failed }) db.transactions;
  }

  -- the update of the wallet's row, by id and version, and of the transaction's
  abbrev post :
      ℕ
      → TransactionStatus
      → Wallet
      → (Decimal → Decimal)
      → List LedgerEntry
      → Tx Error Db (Unit {0})
  post id status w f entries = do
    modify λ (db : Db). record db { ledger = db.ledger ++ entries }
    or_throw (← gets (λ (db : Db). find? (same_version w) db.wallets)) record_not_found
    modify λ (db : Db). record db {
      wallets = update_where (same_version w) (posted_to f) db.wallets;
      transactions = set_transaction_status id status db.transactions;
    }

  abbrev pub fee_of : Transaction → Decimal
  fee_of t = get_or t.processing_fee nought

  -- no entry for a fee of zero
  abbrev fee_entries : ℕ → Decimal → List LedgerEntry
  fee_entries id fee =
      if gt fee nought
      then record {
        transaction_id = id;
        wallet_id = none;
        account_type = platform_fee_revenue;
        direction = credit;
        amount = store fee;
        balance_after = store nought;
      }
        ∷ []
      else []

  -- gross into the platform, net to the wallet, the fee to the platform's revenue
  abbrev pub deposit_entries : Transaction → Wallet → List LedgerEntry
  deposit_entries t w =
      record {
        transaction_id = t.id;
        wallet_id = some w.id;
        account_type = user_wallet;
        direction = credit;
        amount = store t.amount;
        balance_after = store (add w.balance t.amount);
      }
      ∷ record {
        transaction_id = t.id;
        wallet_id = none;
        account_type = platform_cash;
        direction = debit;
        amount = store (add t.amount (fee_of t));
        balance_after = store nought;
      }
      ∷ fee_entries t.id (fee_of t)

  -- `processDeposit`
  unfoldable pub process_deposit : ℕ → Tx Error Db (Unit {0})
  process_deposit id = do
    t ← or_throw (← gets (find_transaction_by_id id)) record_not_found
    throw_if (not (is_pending t.status)) already_processed
    w ← or_throw (← gets (find_wallet_by_id t.wallet_id)) record_not_found
    post t.id completed w (λ b. increment b t.amount) (deposit_entries t w)

  abbrev pub withdrawal_entries : Transaction → Wallet → List LedgerEntry
  withdrawal_entries t w =
      record {
        transaction_id = t.id;
        wallet_id = some w.id;
        account_type = user_wallet;
        direction = debit;
        amount = store t.amount;
        balance_after = store (sub w.balance t.amount);
      }
      ∷ record {
        transaction_id = t.id;
        wallet_id = none;
        account_type = platform_cash;
        direction = credit;
        amount = store t.amount;
        balance_after = store nought;
      }
      ∷ []

  -- `processWithdrawal`
  unfoldable pub process_withdrawal : ℕ → Tx Error Db (Unit {0})
  process_withdrawal id = do
    t ← or_throw (← gets (find_transaction_by_id id)) record_not_found
    throw_if (not (is_pending t.status)) already_processed
    w ← or_throw (← gets (find_wallet_by_id t.wallet_id)) record_not_found
    throw_if (lt (sub w.balance t.amount) nought) insufficient_funds
    post t.id completed w (λ b. decrement b t.amount) (withdrawal_entries t w)
