-- ===== src/Payments/Hosted/Price.antt =====
-- Authenticating the payer does not change what completing the payment will charge.
use pine_backend.Base.{
  ℕ, ◌≡◌, refl, ◌∙◌, ap, Bool, not, ◌&&◌, ◌||◌, Option, none, some, find?-update_where, ◌==◌, arith,
  Bool-cases, inl, inr,
}
use pine_backend.Decimals.{Decimals}
use pine_backend.Accounts.{ensure_broker}
use pine_backend.Store.Keys.{Key, client, has_key, is_deposit, is_pending}
use pine_backend.Store.Rows.{Db, Transaction, Metadata}
use pine_backend.Store.Lookups.{find_wallet_by_id}
use pine_backend.Payments.Deposits.{
  find_pending_deposit, patch_found, attach_deposit_metadata, get_deposit_for_user, owned_by,
}
use pine_backend.Payments.Gateway.{AuthResponse, enrolment_of}
use pine_backend.Payments.Card.{World, Gateway, resolved, gross_amount}
use pine_backend.Payments.Hosted.{
  authenticate_payer, authenticate_enrolled, authenticate_at, authenticate_card_session,
}

module _ ⦃D : Decimals⦄ where
  attached :
      (user_id : ℕ) (key : Key) (patch : Metadata → Metadata) (db : Db) (t : Transaction)
      → get_deposit_for_user user_id key db ≡ some t
      → find_pending_deposit key db ≡ some t
      → get_deposit_for_user user_id key (attach_deposit_metadata key patch db)
        ≡ some (record t { metadata = patch t.metadata })
  unfolding attach_deposit_metadata
  attached user_id key patch db t found awaited =
      let after =
        find?-update_where
          (λ (x : Transaction).
            has_key key x.idempotency_key
            && is_deposit x.type
            && owned_by user_id (find_wallet_by_id x.wallet_id db))
          (λ (x : Transaction). x.id == t.id)
          (λ (x : Transaction). record x { metadata = patch t.metadata }) db.transactions
          (λ x. refl) in
      ap (λ o. get_deposit_for_user user_id key (patch_found patch o db)) awaited
      ∙ (rw (after, found) (ground arith))

  placed :
      (user_id : ℕ) (db : Db)
      → ((ensure_broker user_id db).1.wallets ≡ db.wallets)
        × ((ensure_broker user_id db).1.transactions ≡ db.transactions)
  unfolding ensure_broker
  placed user_id db = (ground arith, ground arith)

  -- The user's deposit is there with the status, the price and the session it had, and no charge has
  -- been made.
  pub record SamePrice (user_id tx_ref : ℕ) (t : Transaction) (w w' : World) : Type 0 where
    pub deposit : Transaction
    pub found : get_deposit_for_user user_id (client tx_ref) w'.db ≡ some deposit
    pub status : deposit.status ≡ t.status
    pub price : gross_amount deposit ≡ gross_amount t
    pub session : deposit.metadata.gateway_session_id ≡ t.metadata.gateway_session_id
    pub charges : w'.charges ≡ w.charges

  module _ (g : Gateway) (user_id tx_ref : ℕ) (t : Transaction) where
    untouched :
        (w w' : World)
        → get_deposit_for_user user_id (client tx_ref) w'.db ≡ some t
        → w'.charges ≡ w.charges
        → SamePrice user_id tx_ref t w w'
    untouched w w' found charges = record {
      deposit = t;
      found = found;
      status = refl;
      price = refl;
      session = refl;
      charges = charges;
    }

    payer_priced :
        (required : Bool) (answer : Option AuthResponse) (w : World)
        → get_deposit_for_user user_id (client tx_ref) w.db ≡ some t
        → find_pending_deposit (client tx_ref) w.db ≡ some t
        → SamePrice user_id tx_ref t w (authenticate_payer g tx_ref required answer w).1
    payer_priced required none w found awaited = untouched w w found refl
    payer_priced required (some a) w found awaited =
        let patch : Metadata → Metadata =
          λ (m : Metadata). record m { three_ds_auth_transaction_id = some g.authentication_id } in
        record {
          deposit = record t { metadata = patch t.metadata };
          found = attached user_id (client tx_ref) patch w.db t found awaited;
          status = refl;
          price = refl;
          session = refl;
          charges = refl;
        }

    enrolled_priced :
        (required : Bool) (answer : Option AuthResponse) (w : World)
        → get_deposit_for_user user_id (client tx_ref) w.db ≡ some t
        → find_pending_deposit (client tx_ref) w.db ≡ some t
        → SamePrice user_id tx_ref t w (authenticate_enrolled g tx_ref required answer w).1
    enrolled_priced required none w found awaited = untouched w w found refl
    enrolled_priced required (some r) w found awaited =
        elim (Bool-cases (not (enrolment_of r).available || (enrolment_of r).do_not_proceed)) [
          | inl stopped ↦ rw stopped (untouched w w found refl)
          | inr enrolled ↦ rw enrolled (payer_priced required g.authentication w found awaited)
        ]

    resolved_found :
        (w : World)
        → (get_deposit_for_user user_id (client tx_ref) (resolved user_id w).db
            ≡ get_deposit_for_user user_id (client tx_ref) w.db)
          × (find_pending_deposit (client tx_ref) (resolved user_id w).db
              ≡ find_pending_deposit (client tx_ref) w.db)
    resolved_found w =
        let (wallets, rows) = placed user_id w.db in (rw (wallets, rows) refl, rw rows refl)

    at_priced :
        (session_id : Option ℕ) (config : Option Bool) (w : World)
        → get_deposit_for_user user_id (client tx_ref) w.db ≡ some t
        → find_pending_deposit (client tx_ref) w.db ≡ some t
        → SamePrice user_id tx_ref t w (authenticate_at g user_id tx_ref session_id config w).1
    at_priced none config w found awaited = untouched w w found refl
    at_priced (some s) none w found awaited =
        untouched w (resolved user_id w) ((resolved_found w).0 ∙ found) refl
    at_priced (some s) (some required) w found awaited =
        let priced =
          enrolled_priced required g.enrolment (resolved user_id w) ((resolved_found w).0 ∙ found)
            ((resolved_found w).1 ∙ awaited) in
        record {
          deposit = priced.deposit;
          found = priced.found;
          status = priced.status;
          price = priced.price;
          session = priced.session;
          charges = priced.charges;
        }

    -- Authenticating the payer, however the gateway answers, leaves the user's deposit its status,
    -- the price that completing it charges and its session, and makes no charge, where the pending
    -- deposit under the reference is the user's own.
    pub authenticate_card_session-SamePrice :
        (w : World)
        → get_deposit_for_user user_id (client tx_ref) w.db ≡ some t
        → find_pending_deposit (client tx_ref) w.db ≡ some t
        → SamePrice user_id tx_ref t w (authenticate_card_session g user_id tx_ref w).1
    unfolding authenticate_card_session
    authenticate_card_session-SamePrice w found awaited = elim (Bool-cases (is_pending t.status)) [
      | inl awaiting ↦
          rw (found, awaiting)
            (at_priced t.metadata.gateway_session_id g.require_3ds w found awaited)
      | inr closed ↦ rw (found, closed) (untouched w w found refl)
    ]
