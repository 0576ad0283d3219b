-- ===== src/Payments/Card/Backed.antt =====
-- What the charge of a hosted session rests on.
use pine_backend.Base.{
  ℕ, ◌≡◌, refl, ◌⊎◌, inl, inr, Bool, true, false, ◌&&◌, Option, none, some, List, [], ◌∷◌, ◌++◌,
  Result, ok, err, Bool-cases, Option-cases, sym, subst,
}
use pine_backend.Decimals.{Decimals}
use pine_backend.Accounts.{is_none}
use pine_backend.Store.Keys.{client, TransactionStatus, pending, processing, completed, failed}
use pine_backend.Store.Errors.{Error}
use pine_backend.Store.Rows.{Db, Transaction}
use pine_backend.Trading.Fees.{ResolvedFeePolicy}
use pine_backend.Payments.Deposits.{get_deposit_for_user, process_payment}
use pine_backend.Payments.Gateway.{AuthResponse, is_authenticated, success}
use pine_backend.Payments.Card.{
  session, Charge, World, Gateway, Receipt, gross_amount, authenticated_id, capture, credited,
  resolved, complete_at, receipt_of, complete_deposit, complete_found, complete_session_payment,
}

module _ ⦃D : Decimals⦄ where
  open D use {Decimal, Number}

  abbrev pub is_awaited : TransactionStatus → Bool
  is_awaited completed = false
  is_awaited failed = false
  is_awaited _ = true

  -- The one new charge is for the amount and the session of the user's own deposit, which was neither
  -- COMPLETED nor FAILED; the broker has a live gateway, and where it requires 3-D Secure, the gateway
  -- itself confirms the authentication that the deposit carries.
  pub record IsBacked (g : Gateway) (user_id tx_ref : ℕ) (w w' : World) : Type 0 where
    pub deposit : Transaction
    pub session_id : ℕ
    pub required : Bool
    pub found : get_deposit_for_user user_id (client tx_ref) w.db ≡ some deposit
    pub awaited : is_awaited deposit.status ≡ true
    pub populated : deposit.metadata.gateway_session_id ≡ some session_id
    pub config : g.require_3ds ≡ some required
    pub verified :
        (required ≡ false)
        ⊎ ((id : ℕ) × (answer : AuthResponse) × (deposit.metadata.three_ds_auth_transaction_id
              ≡ some id)
            × (g.verification ≡ some answer)
            × (is_authenticated answer ≡ true))
    pub charged :
        w'.charges
        ≡ w.charges
          ++ (record {
            tx_ref = tx_ref;
            amount = gross_amount deposit;
            source = session session_id;
            authentication_transaction_id =
                authenticated_id deposit.metadata.three_ds_auth_transaction_id g.verification;
          }
              ∷ [])

  confirmed :
      (attempt : Option ℕ) (answer : Option AuthResponse) (id : ℕ)
      → authenticated_id attempt answer ≡ some id
      → (a : AuthResponse) × (attempt ≡ some id) × (answer ≡ some a) × (is_authenticated a ≡ true)
  confirmed none answer id p = cc
  confirmed (some i) none id p = cc
  confirmed (some i) (some a) id p = elim (Bool-cases (is_authenticated a)) [
    | inl good ↦ let e : some i ≡ some id = rw good at p in (a, e, refl, good)
    | inr bad ↦ let e : none ≡ some id = rw bad at p in cc
  ]

  gate :
      (required : Bool) (attempt : Option ℕ) (answer : Option AuthResponse)
      → (required && is_none (authenticated_id attempt answer)) ≡ false
      → (required ≡ false)
        ⊎ ((id : ℕ) × (a : AuthResponse) × (attempt ≡ some id)
            × (answer ≡ some a)
            × (is_authenticated a ≡ true))
  gate false attempt answer p = inl refl
  gate true attempt answer p = elim (Option-cases (authenticated_id attempt answer)) [
    | inl nobody ↦ let bad : true ≡ false = rw nobody at p in cc
    | inr (id, known) ↦
        let (a, tried, answered, good) = confirmed attempt answer id known in
        inr (id, a, tried, answered, good)
  ]

  module _ (policy : ResolvedFeePolicy) (blocked : ℕ → ℕ → Decimal → Db → Bool) (wired : Bool)
      (midnight now : ℕ) where
    credited_charges :
        (tx_ref : ℕ) (r : Receipt) (cs : List Charge) (x : Result Error (Unit {0}) × Db)
        → (credited policy blocked wired midnight now tx_ref r cs x).1.charges ≡ cs
    credited_charges tx_ref r cs (ok u, db) = refl
    credited_charges tx_ref r cs (err e, db) = refl

    capture_charges :
        (g : Gateway) (c : Charge) (r : Receipt) (w : World)
        → ((capture policy blocked wired midnight now g c r w).1.charges ≡ w.charges)
          ⊎ ((capture policy blocked wired midnight now g c r w).1.charges ≡ w.charges ++ (c ∷ []))
    unfolding capture
    capture_charges g c r w = elim (Bool-cases (g.takes c)) [
      | inr declined ↦ inl (rw declined refl)
      | inl taken ↦ inr (
          rw taken (
            credited_charges c.tx_ref r (w.charges ++ c ∷ [])
              (process_payment policy blocked wired midnight now c.tx_ref w.db)))
    ]

    module _ (g : Gateway) (user_id tx_ref : ℕ) (w : World) where
      abbrev Backed : World → Type 0
      Backed w' = (w'.charges ≡ w.charges) ⊎ IsBacked g user_id tx_ref w w'

      at_rests :
          (t : Transaction)
          → get_deposit_for_user user_id (client tx_ref) w.db ≡ some t
          → is_awaited t.status ≡ true
          → (session_id : Option ℕ) (config : Option Bool)
          → t.metadata.gateway_session_id ≡ session_id
          → g.require_3ds ≡ config
          → Backed
              (complete_at policy blocked wired midnight now g user_id tx_ref t session_id config
                w).1
      at_rests t found awaited none config p q = inl refl
      at_rests t found awaited (some s) none p q = inl refl
      at_rests t found awaited (some s) (some required) p q =
          let verified = authenticated_id t.metadata.three_ds_auth_transaction_id g.verification in
          let c : Charge = record {
            tx_ref = tx_ref;
            amount = gross_amount t;
            source = session s;
            authentication_transaction_id = verified;
          } in
          elim (Bool-cases (required && is_none verified)) [
            | inl stopped ↦ rw stopped (inl refl)
            | inr passed ↦
                rw passed
                  (elim (capture_charges g c
                    (receipt_of policy blocked wired midnight now t success) (resolved user_id w)) [
                      | inl same ↦ inl same
                      | inr taken ↦ inr (record {
                        deposit = t;
                        session_id = s;
                        required = required;
                        found = found;
                        awaited = awaited;
                        populated = p;
                        config = q;
                        verified =
                            gate required t.metadata.three_ds_auth_transaction_id g.verification
                              passed;
                        charged = taken;
                      })
                    ])
          ]

      deposit_rests :
          (t : Transaction)
          → get_deposit_for_user user_id (client tx_ref) w.db ≡ some t
          → (status : TransactionStatus) → t.status ≡ status
          → Backed
              (complete_deposit policy blocked wired midnight now g user_id tx_ref t status w).1
      deposit_rests t found completed p = inl refl
      deposit_rests t found failed p = inl refl
      deposit_rests t found pending p =
          at_rests t found (rw p refl) t.metadata.gateway_session_id g.require_3ds refl refl
      deposit_rests t found processing p =
          at_rests t found (rw p refl) t.metadata.gateway_session_id g.require_3ds refl refl

      -- Completing a hosted session makes no charge, or one: for the amount and the session that the
      -- user's own deposit stores, while it is awaited, at a broker with a live gateway, and where
      -- that broker requires 3-D Secure, with an authentication that the gateway confirms.
      pub complete_session_payment-IsBacked :
          ((complete_session_payment policy blocked wired midnight now g user_id tx_ref w).1.charges
            ≡ w.charges)
          ⊎ IsBacked g user_id tx_ref w
              (complete_session_payment policy blocked wired midnight now g user_id tx_ref w).1
      unfolding complete_session_payment
      complete_session_payment-IsBacked =
          elim (Option-cases (get_deposit_for_user user_id (client tx_ref) w.db)) [
            | inl missing ↦ rw missing (inl refl)
            | inr (t, found) ↦
                subst
                  (λ o.
                    Backed
                      (complete_found policy blocked wired midnight now g user_id tx_ref o w).1)
                  (sym found) (deposit_rests t found t.status refl)
          ]
