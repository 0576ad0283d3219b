-- ===== src/Payments/Deposits/Credits.antt =====
-- What a confirmed payment does to the cash tables is what `processDeposit` does, whatever becomes of
-- the purchase that follows it.
use pine_backend.Base.{
  ℕ, ◌≡◌, refl, ◌∙◌, Bool, ◌&&◌, Option, none, some, ok, err, ap, transaction, Bool-cases,
  Option-cases, inl, inr, arith,
}
use pine_backend.Decimals.{Decimals, IsExact}
use pine_backend.Store.Keys.{Key, client, purchase}
use pine_backend.Store.Errors.{Error}
use pine_backend.Store.Rows.{Db, Wallet, Transaction, Metadata}
use pine_backend.Store.Lookups.{find_wallet_by_id, find_transaction_by_id}
use pine_backend.Trading.Fees.{ResolvedFeePolicy}
use pine_backend.Trading.Orders.{OrderRequest}
use pine_backend.Trading.Submission.Cashless.{IsCashless, submit_order-Cashless}
use pine_backend.Trading.Submission.Steps.{Result-cases}
use pine_backend.Wallet.Posting.{UniqueWallets, AllReconciled, unmoved-AllReconciled}
use pine_backend.Wallet.Written.{OneWalletPerUser}
use pine_backend.Wallet.Transfers.{process_deposit}
use pine_backend.Wallet.Transfers.Cash.{IsCreditable, process_deposit-AllReconciled}
use pine_backend.Payments.Deposits.{
  find_pending_deposit, purchase_of, owner_of, claim_of, submit_purchase, buy_shares,
  credit_then_buy, process_found, process_payment,
}

module _ ⦃D : Decimals⦄ where
  open D use {Decimal}

  module _ (policy : ResolvedFeePolicy) (blocked : ℕ → ℕ → Decimal → Db → Bool) (wired : Bool)
      (midnight now : ℕ) where
    submit_purchase-IsCashless :
        (request : Option OrderRequest) (db : Db)
        → IsCashless db (submit_purchase policy blocked midnight now request db)
    submit_purchase-IsCashless none db = record {
      wallets = refl;
      ledger = refl;
      transactions = refl;
    }
    submit_purchase-IsCashless (some request) db =
        submit_order-Cashless policy blocked midnight now request (claim_of request.user_id db) db

    buy_shares-IsCashless :
        (user_id : ℕ) (order_key : Key) (meta : Metadata) (db : Db)
        → IsCashless db (buy_shares policy blocked wired midnight now user_id order_key meta db)
    unfolding buy_shares
    buy_shares-IsCashless user_id order_key meta db =
        elim (Bool-cases (meta.is_purchase && wired)) [
          | inl buys ↦ rw buys (submit_purchase-IsCashless (purchase_of user_id order_key meta) db)
          | inr not_bought ↦
              rw not_bought (record { wallets = refl; ledger = refl; transactions = refl })
        ]

    -- Where the deposit under the reference is processed, the payment succeeds, and the cash tables
    -- are as the deposit left them, whether or not shares are bought.
    pub process_payment_credits :
        (tx_ref : ℕ) (t : Transaction) (db db' : Db) (u : Unit {0})
        → find_pending_deposit (client tx_ref) db ≡ some t
        → process_deposit t.id db ≡ ok (u, db')
        → ((process_payment policy blocked wired midnight now tx_ref db).0 ≡ ok tt)
          × IsCashless db' (process_payment policy blocked wired midnight now tx_ref db).1
    unfolding process_payment
    process_payment_credits tx_ref t db db' u found credited =
        let user_id = owner_of (find_wallet_by_id t.wallet_id db) in
        let paid : transaction (process_deposit t.id) db ≡ (ok tt, db') =
          ground (arith, credited) in
        let end : process_payment policy blocked wired midnight now tx_ref db ≡ (
          ok tt,
          buy_shares policy blocked wired midnight now user_id (purchase tx_ref) t.metadata db',
        ) =
          ap (λ o. process_found policy blocked wired midnight now (purchase tx_ref) o db) found
          ∙ ap
              (credit_then_buy policy blocked wired midnight now user_id (purchase tx_ref)
                t.metadata)
              paid in
        rw end (refl, buy_shares-IsCashless user_id (purchase tx_ref) t.metadata db')

    -- A payment with no pending deposit, or whose deposit cannot be processed, writes nothing.
    pub process_payment_idle :
        (tx_ref : ℕ) (db : Db)
        → find_pending_deposit (client tx_ref) db ≡ none
        → process_payment policy blocked wired midnight now tx_ref db ≡ (ok tt, db)
    unfolding process_payment
    process_payment_idle tx_ref db missing = rw missing refl

    pub process_payment_fails :
        (tx_ref : ℕ) (t : Transaction) (db : Db) (e : Error)
        → find_pending_deposit (client tx_ref) db ≡ some t
        → process_deposit t.id db ≡ err e
        → process_payment policy blocked wired midnight now tx_ref db ≡ (err e, db)
    unfolding process_payment
    process_payment_fails tx_ref t db e found failed =
        let user_id = owner_of (find_wallet_by_id t.wallet_id db) in
        let paid : transaction (process_deposit t.id) db ≡ (err e, db) = ground (arith, failed) in
        ap (λ o. process_found policy blocked wired midnight now (purchase tx_ref) o db) found
        ∙ ap
            (credit_then_buy policy blocked wired midnight now user_id (purchase tx_ref) t.metadata)
            paid

  module _ (E : IsExact) (policy : ResolvedFeePolicy) (blocked : ℕ → ℕ → Decimal → Db → Bool)
      (wired : Bool) (midnight now : ℕ) where
    -- A confirmed payment, however it ends and whatever order it places, keeps every wallet in
    -- agreement with its ledger and not overdrawn, where wallets are unique by id and by user, and
    -- the amounts of transactions are whole, not negative and below the precision of their wallet.
    pub process_payment-AllReconciled :
        (tx_ref : ℕ) (db : Db)
        → UniqueWallets db
        → OneWalletPerUser db
        → ((p t : Transaction) (w : Wallet)
            → find_pending_deposit (client tx_ref) db ≡ some p
            → find_transaction_by_id p.id db ≡ some t
            → find_wallet_by_id t.wallet_id db ≡ some w
            → IsCreditable E t w)
        → AllReconciled E db
        → AllReconciled E (process_payment policy blocked wired midnight now tx_ref db).1
    process_payment-AllReconciled tx_ref db unique own fits all =
        elim (Option-cases (find_pending_deposit (client tx_ref) db)) [
          | inl missing ↦
              rw (process_payment_idle policy blocked wired midnight now tx_ref db missing) all
          | inr (p, found) ↦ elim (Result-cases (process_deposit p.id db)) [
            | inr (e, failed) ↦
                rw
                  (process_payment_fails policy blocked wired midnight now tx_ref p db e found
                    failed)
                  all
            | inl ((u, db'), credited) ↦
                let kept =
                  (process_payment_credits policy blocked wired midnight now tx_ref p db db' u found
                    credited).1 in
                let after =
                  process_deposit-AllReconciled E p.id db db' u unique own (λ t w. fits p t w found)
                    credited all in
                unmoved-AllReconciled E db'
                  (process_payment policy blocked wired midnight now tx_ref db).1 kept.wallets
                  kept.ledger after
          ]
        ]
