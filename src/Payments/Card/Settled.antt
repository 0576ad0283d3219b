-- ===== src/Payments/Card/Settled.antt =====
-- The one deposit under a reference, and the writes that close it.
use pine_backend.Base.{
  ℕ, ◌≡◌, refl, inl, inr, ◌==◌, Bool, true, false, ◌&&◌, none, some, List, [], ◌∷◌, All, find?,
  find?-test, find?-All, update_where, arith, Bool-cases,
}
use pine_backend.Decimals.{Decimals}
use pine_backend.Accounts.{ensure_broker}
use pine_backend.Store.Keys.{
  Key, has_key, is_deposit, is_pending, TransactionStatus, pending, processing, completed, failed,
}
use pine_backend.Store.Rows.{Db, Transaction}
use pine_backend.Wallet.Transfers.{set_transaction_status}
use pine_backend.Payments.Deposits.{find_pending_deposit}

module _ ⦃D : Decimals⦄ where
  open D use {Decimal}

  abbrev pub is_under : Key → Transaction → Bool
  is_under key t = has_key key t.idempotency_key && is_deposit t.type

  abbrev pub is_final : TransactionStatus → Bool
  is_final completed = true
  is_final failed = true
  is_final _ = false

  abbrev pub is_open : TransactionStatus → Bool
  is_open processing = false
  is_open _ = true

  -- Deposits under the key are one deposit, which is PENDING, COMPLETED or FAILED.
  abbrev pub IsOneDeposit : Key → ℕ → List Transaction → Type 0
  IsOneDeposit key id = All (λ t. is_under key t ≡ true → (t.id ≡ id) × (is_open t.status ≡ true))

  -- Every deposit under the key is COMPLETED or FAILED.
  abbrev pub IsSettled : Key → List Transaction → Type 0
  IsSettled key = All (λ t. is_under key t ≡ true → is_final t.status ≡ true)

  pub closed_status :
      (s : TransactionStatus) → is_pending s ≡ false → is_open s ≡ true → is_final s ≡ true
  closed_status pending p q = cc
  closed_status processing p q = cc
  closed_status completed p q = refl
  closed_status failed p q = refl

  pub completing_settles :
      (key : Key) (id : ℕ) (ts : List Transaction)
      → IsOneDeposit key id ts
      → IsSettled key (set_transaction_status id completed ts)
  completing_settles key id [] one = tt
  completing_settles key id (t ∷ ts) (own, rest) = (
    elim (Bool-cases (t.id == id)) [
      | inl same ↦ rw same (λ u. refl)
      | inr differs ↦ rw differs (λ u. let own_id = (own u).0 in ground arith)
    ],
    completing_settles key id ts rest,
  )

  pub failing_settles :
      (key : Key) (id : ℕ) (ts : List Transaction)
      → IsOneDeposit key id ts
      → IsSettled key (
          update_where
            (λ (t : Transaction).
              has_key key t.idempotency_key && is_deposit t.type && is_pending t.status)
            (λ (t : Transaction). record t { status = failed })
            ts)
  failing_settles key id [] one = tt
  failing_settles key id (t ∷ ts) (own, rest) = (
    elim (Bool-cases (has_key key t.idempotency_key && is_deposit t.type && is_pending t.status)) [
      | inl found ↦ rw found (λ u. refl)
      | inr passed ↦ rw passed (λ u. let open_status = (own u).1 in ground arith)
    ],
    failing_settles key id ts rest,
  )

  pub no_pending_settles :
      (key : Key) (id : ℕ) (ts : List Transaction)
      → IsOneDeposit key id ts
      → find?
          (λ (t : Transaction).
            has_key key t.idempotency_key && is_deposit t.type && is_pending t.status)
          ts
        ≡ none
      → IsSettled key ts
  no_pending_settles key id [] one missing = tt
  no_pending_settles key id (t ∷ ts) (own, rest) missing =
      elim (Bool-cases
        (has_key key t.idempotency_key && is_deposit t.type && is_pending t.status)) [
          | inl found ↦ let bad : some t ≡ none = rw found at missing in cc
          | inr passed ↦ (
            (λ u. let open_status = (own u).1 in closed_status t.status (ground arith) open_status),
            no_pending_settles key id ts rest (rw passed at missing),
          )
        ]

  pub pending_is_one :
      (key : Key) (id : ℕ) (db : Db) (t : Transaction)
      → IsOneDeposit key id db.transactions
      → find_pending_deposit key db ≡ some t
      → t.id ≡ id
  pending_is_one key id db t one found =
      let passed =
        find?-test
          (λ (x : Transaction).
            has_key key x.idempotency_key && is_deposit x.type && is_pending x.status)
          db.transactions t found in
      (find?-All (λ x. is_under key x ≡ true → (x.id ≡ id) × (is_open x.status ≡ true))
        (λ (x : Transaction).
          has_key key x.idempotency_key && is_deposit x.type && is_pending x.status)
        db.transactions t one found (ground arith)).0

  pub ensure_broker-transactions :
      (user_id : ℕ) (db : Db) → (ensure_broker user_id db).1.transactions ≡ db.transactions
  unfolding ensure_broker
  ensure_broker-transactions user_id db = ground arith
