-- ===== src/Cash/Refinement.antt =====
-- Every step on the cash tables refines the specification of the accounts.
use pine_backend.Base.{
  ℕ, ◌≡◌, Bool, Option, refl, ap, ℤ, pos, ◌+ℤ◌, ◌≤ℤ◌, int_laws, arith, ok, inl, inr,
}
use pine_backend.Decimals.{Decimals, IsExact}
use pine_backend.Store.Rows.{Db, Metadata}
use pine_backend.Cash.{
  ◌⇒◌, kept, moved, ◌⟶◌, settled, deposited, withdrawn, refused, reserved, paid, split, issued,
  executed, hold_ended, swept, deposit_opened, withdrawal_opened, deposit_failed, IsInRange,
}
use pine_backend.Trading.Settlement.Cash.{settle-IsPostedIn}
use pine_backend.Trading.Execution.Fills.{execute_moves_nothing}
use pine_backend.Wallet.Ledger.{ledger_units, ledger_units-append}
use pine_backend.Wallet.Posting.{
  UniqueWallets, AllReconciled, IsPostedIn, posted-AllReconciled, unmoved-AllReconciled,
}
use pine_backend.Wallet.Reservations.Holds.{reserve_funds-keeps}
use pine_backend.Wallet.Transfers.{
  reject_withdrawal, deposit_into, withdraw_from, mark_deposit_failed,
}
use pine_backend.Wallet.Reservations.{end_hold, expire_stale_reservations}
use pine_backend.Store.Keys.{Key, ReservationStatus, TransactionStatus}
use pine_backend.Trading.Fees.{ResolvedFeePolicy}
use pine_backend.Wallet.Transfers.Cash.{process_deposit-IsPostedIn, process_withdrawal-IsPostedIn}
use pine_backend.Wallet.Written.{OneWalletPerUser, posting-UniqueWallets, posting-OneWalletPerUser}
use pine_backend.Dividends.{pay_holder}
use pine_backend.Dividends.Shares.{apply_stock_split_cash, distribute_bonus_shares_cash}
use pine_backend.Dividends.Credit.{pay_holder_cash, credited-IsPostedIn}

module _ ⦃D : Decimals⦄ (E : IsExact) where
  open D use {Number}

  -- The abstract state of a database: what the ledger says of each wallet.
  abbrev pub accounts : Db → ℕ → ℤ
  accounts db i = ledger_units E i db.ledger

  -- Wallets are unique, by id and by user, and each shows what its ledger says, not below zero.
  pub record IsConsistent (db : Db) : Type 0 where
    pub unique : UniqueWallets db
    pub one : OneWalletPerUser db
    pub reconciled : AllReconciled E db

  -- The accounts have made an allowed move, and the database is consistent again.
  abbrev pub Refines : Db → Db → Type 0
  Refines db db' = (accounts db ⇒ accounts db') × IsConsistent db'

  posted-Refines : (db db' : Db) → IsPostedIn E db db' → IsConsistent db → Refines db db'
  posted-Refines db db' p c =
      let before = c.reconciled p.user p.wallet p.found in
      let amount = ledger_units E p.wallet.id p.entries in
      let account : (i : ℕ) → accounts db' i ≡ accounts db i +ℤ ledger_units E i p.entries =
        λ i. rw p.ledger (ledger_units-append E i db.ledger p.entries) in
      let solvent : pos 0 ≤ℤ accounts db p.wallet.id +ℤ amount =
        rw (p.posting.moved, before.agrees) at p.posting.solvent in
      (
        moved p.wallet.id amount (account p.wallet.id) (rw (account p.wallet.id) solvent)
            (λ j other. rw (account j, p.posting.others j other) (omega int_laws)),
        record {
          unique = posting-UniqueWallets p.wallet p.move db db' p.wallets c.unique;
          one = posting-OneWalletPerUser p.wallet p.move db db' p.wallets c.one;
          reconciled = posted-AllReconciled E db db' p c.unique c.reconciled;
        },
      )

  unmoved-Refines :
      (db db' : Db)
      → db'.wallets ≡ db.wallets
      → db'.ledger ≡ db.ledger
      → IsConsistent db
      → Refines db db'
  unmoved-Refines db db' wallets ledger c = (
    kept (λ j. rw ledger refl),
    record {
      unique = rw wallets c.unique;
      one = rw wallets c.one;
      reconciled = unmoved-AllReconciled E db db' wallets ledger c.reconciled;
    },
  )

  reject_withdrawal_cash :
      (id : ℕ) (db db' : Db)
      → reject_withdrawal id db ≡ ok (tt, db')
      → (db'.wallets ≡ db.wallets) × (db'.ledger ≡ db.ledger)
  unfolding reject_withdrawal
  reject_withdrawal_cash id db db' ran = (ground arith, ground arith)

  -- What the database keeps of its wallets and its ledger.
  abbrev SameCash : Db → Db → Type 0
  SameCash db db' = (db'.wallets ≡ db.wallets) × (db'.ledger ≡ db.ledger)

  end_hold_cash :
      (status : ReservationStatus) (order_id : ℕ) (db : Db)
      → SameCash db (end_hold status order_id db)
  unfolding end_hold
  end_hold_cash status order_id db = (ground arith, ground arith)

  mark_deposit_failed_cash : (key : Key) (db : Db) → SameCash db (mark_deposit_failed key db)
  unfolding mark_deposit_failed
  mark_deposit_failed_cash key db = (ground arith, ground arith)

  deposit_into_cash :
      (allowed : Bool) (policy : ResolvedFeePolicy) (wallet_id : ℕ) (amount : Number)
      (key : Option Key) (meta : Metadata) (r : ℕ × TransactionStatus) (db db' : Db)
      → deposit_into allowed policy wallet_id amount key meta db ≡ ok (r, db')
      → SameCash db db'
  unfolding deposit_into
  deposit_into_cash allowed policy wallet_id amount key meta r db db' ran =
      (ground arith, ground arith)

  withdraw_from_cash :
      (wallet_id : ℕ) (amount : Number) (key : Option Key) (r : ℕ × TransactionStatus) (db db' : Db)
      → withdraw_from wallet_id amount key db ≡ ok (r, db')
      → SameCash db db'
  unfolding withdraw_from
  withdraw_from_cash wallet_id amount key r db db' ran = (ground arith, ground arith)

  -- Refinement: a settlement, a deposit or a withdrawal that is opened in a wallet, processed, failed or
  -- refused, a hold that is placed, ended or swept away, the payment of a dividend to a holder, a stock
  -- split, a bonus issue or an execution, from a consistent database, with amounts in whole columns and
  -- within the precision, where deposits and dividends are not negative and the fees of a sale do not
  -- exceed its value, moves the account of at most one wallet, leaves that one not below zero, and leaves
  -- a consistent database. The creation of a wallet is not among these steps.
  pub step-Refines : (db db' : Db) (s : db ⟶ db') → IsInRange E s → IsConsistent db → Refines db db'
  unfolding IsInRange expire_stale_reservations
  step-Refines db db' (settled e id ran) range c =
      posted-Refines db db' (settle-IsPostedIn E e db db' id range ran c.reconciled) c
  step-Refines db db' (deposited id ran) range c =
      posted-Refines db db' (process_deposit-IsPostedIn E id db db' tt c.one range ran c.reconciled)
        c
  step-Refines db db' (withdrawn id ran) range c =
      posted-Refines db db'
        (process_withdrawal-IsPostedIn E id db db' tt c.one range ran c.reconciled) c
  step-Refines db db' (refused id ran) range c =
      let same = reject_withdrawal_cash id db db' ran in unmoved-Refines db db' same.0 same.1 c
  step-Refines db db' (reserved user_id order_id amount minutes now id ran) range c =
      let same = reserve_funds-keeps user_id order_id amount minutes now db db' id ran in
      unmoved-Refines db db' same.0 same.1 c
  step-Refines db db' (paid d h r ran) range c =
      let end : (pay_holder d h db).1 ≡ db' = ap (λ x. x.1) ran in
      rw (← end) (elim (pay_holder_cash d h db) [
        | inl (w, credited) ↦
            posted-Refines db (pay_holder d h db).1
              (credited-IsPostedIn E d h w db (pay_holder d h db).1 range.0
                (range.1 w credited.found) credited c.reconciled)
              c
        | inr same ↦ unmoved-Refines db (pay_holder d h db).1 same.wallets same.ledger c
      ])
  step-Refines db db' (split action_id ran) range c =
      let same = apply_stock_split_cash action_id db db' ran in
      unmoved-Refines db db' same.wallets same.ledger c
  step-Refines db db' (issued action_id total ran) range c =
      let same = distribute_bonus_shares_cash action_id db db' total ran in
      unmoved-Refines db db' same.wallets same.ledger c
  step-Refines db db' (executed adapter policy platform_fee id price out ran) range c =
      let same = execute_moves_nothing adapter policy platform_fee id price db db' out ran in
      unmoved-Refines db db' same.0 same.1 c
  step-Refines db db' (hold_ended status order_id) range c =
      let same = end_hold_cash status order_id db in unmoved-Refines db db' same.0 same.1 c
  step-Refines db db' (swept now) range c = unmoved-Refines db db' refl refl c
  step-Refines db db' (deposit_opened allowed policy wallet_id amount key meta r ran) range c =
      let same = deposit_into_cash allowed policy wallet_id amount key meta r db db' ran in
      unmoved-Refines db db' same.0 same.1 c
  step-Refines db db' (withdrawal_opened wallet_id amount key r ran) range c =
      let same = withdraw_from_cash wallet_id amount key r db db' ran in
      unmoved-Refines db db' same.0 same.1 c
  step-Refines db db' (deposit_failed key) range c =
      let same = mark_deposit_failed_cash key db in unmoved-Refines db db' same.0 same.1 c
