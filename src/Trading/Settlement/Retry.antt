-- ===== src/Trading/Settlement/Retry.antt =====
-- `runWithRetry` and the event handler of src/modules/trading/services/settlement.service.ts. The
-- loop is on fuel: `none` would mean that it ran out, and the theorem shows that it does not.
use pine_backend.Base.{
  ℕ, zero, suc, ◌+◌, ◌≤◌, ◌<◌, ◌≡◌, refl, true, false, ◌&&◌, Option, none, some, ltb, Result, ok,
  err, Action, transaction, arith, Bool-cases, inl, inr, ◌⊎◌,
}
use native.Mathlib.Decide.{dec_lt}
use pine_backend.Decimals.{Decimals}
use pine_backend.Store.Errors.{Error, is_retryable}
use pine_backend.Store.Rows.{Db}
use pine_backend.Trading.Settlement.{OrderExecutedEvent, settle_atomically}

module _ {S A : Type 0} where
  -- `fn n` is what the n-th attempt does, the interference of other writers before it included.
  pub retry_from : ℕ → ℕ → (ℕ → Action Error S A) → S → Option (Result Error A × S)
  retry_from zero attempt fn s = none
  retry_from (suc fuel) attempt fn s =
      let (r, t) = fn attempt s in
      elim r [
        | ok a ↦ some (ok a, t)
        | err e ↦ elim (ltb attempt 4 && is_retryable e) [
          | true ↦ retry_from fuel (attempt + 1) fn t
          | false ↦ some (err e, t)
        ]
      ]

  unfoldable pub run_with_retry : (ℕ → Action Error S A) → S → Option (Result Error A × S)
  unfolding retry_from
  run_with_retry fn s = retry_from 4 1 fn s

  -- How a sequence of attempts can end: an attempt succeeds, or it fails for good (with an error
  -- that is not transient, or as the fourth), or it fails transiently and a later one ends so.
  pub data Ends (fn : ℕ → Action Error S A) : ℕ → S → Result Error A × S → Type 0 where
    succeeds : {n : ℕ} {s t : S} {a : A} → fn n s ≡ (ok a, t) → Ends fn n s (ok a, t)
    fails :
        {n : ℕ} {s t : S} {e : Error}
        → fn n s ≡ (err e, t)
        → (is_retryable e ≡ false) ⊎ (4 ≤ n)
        → Ends fn n s (err e, t)
    again :
        {n : ℕ} {s t : S} {e : Error} {out : Result Error A × S}
        → fn n s ≡ (err e, t)
        → is_retryable e ≡ true
        → n < 4
        → Ends fn (n + 1) t out
        → Ends fn n s out

  -- One attempt, given how the later ones end if it is followed by any.
  attempt-Ends :
      (fuel n : ℕ) (fn : ℕ → Action Error S A) (s : S) (result : Result Error A)
      → (fn n s).0 ≡ result
      → (n < 4
          → (out : Result Error A × S) × (retry_from fuel (n + 1) fn (fn n s).1 ≡ some out)
            × Ends fn (n + 1) (fn n s).1 out)
      → (out : Result Error A × S) × (retry_from (suc fuel) n fn s ≡ some out) × Ends fn n s out
  unfolding retry_from
  attempt-Ends fuel n fn s (ok a) e later =
      ((ok a, (fn n s).1), ground (arith, e), succeeds (λ i. (e i, (fn n s).1)))
  attempt-Ends fuel n fn s (err x) e later = elim (Bool-cases (is_retryable x)) [
    | inr lasting ↦
        ((err x, (fn n s).1), ground (arith, e), fails (λ i. (e i, (fn n s).1)) (inl lasting))
    | inl transient ↦ elim (dec_lt n 4) [
      | yes early ↦
          let (out, run, ends) = later early in
          (out, ground (arith, e, run), again (λ i. (e i, (fn n s).1)) transient early ends)
      | no late ↦ (
        (err x, (fn n s).1),
        ground (arith, e),
        fails (λ i. (e i, (fn n s).1)) (inr (omega arith)),
      )
    ]
  ]

  retry_from-Ends :
      (fuel n : ℕ) (fn : ℕ → Action Error S A) (s : S)
      → 5 ≤ fuel + n
      → 0 < fuel
      → (out : Result Error A × S) × (retry_from fuel n fn s ≡ some out) × Ends fn n s out
  retry_from-Ends zero n fn s room left = absurd (omega arith)
  retry_from-Ends (suc fuel) n fn s room left =
      attempt-Ends fuel n fn s (fn n s).0 refl
        λ early. retry_from-Ends fuel (n + 1) fn (fn n s).1 (omega arith) (omega arith)

  -- The loop always ends, and as `Ends` says: with the first success, or with the first error that
  -- is not transient, or with the error of the fourth attempt.
  pub run_with_retry-Ends :
      (fn : ℕ → Action Error S A) (s : S)
      → (out : Result Error A × S) × (run_with_retry fn s ≡ some out) × Ends fn 1 s out
  unfolding run_with_retry
  run_with_retry-Ends fn s = retry_from-Ends 4 1 fn s (omega arith) (omega arith)

module _ ⦃D : Decimals⦄ where
  -- `handleOrderExecuted`, with no other writer between the attempts: the settlement id of the event
  -- that it emits, null for a duplicate
  unfoldable pub handle_order_executed :
      OrderExecutedEvent → Db → Option (Result Error (Option ℕ) × Db)
  unfolding run_with_retry
  handle_order_executed e = run_with_retry (λ n. transaction (settle_atomically e))
