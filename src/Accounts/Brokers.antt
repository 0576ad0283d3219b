-- ===== src/Accounts/Brokers.antt =====
-- Placing an investor with the default broker closes the gap once.
use pine_backend.Base.{
  ℕ, ◌≡◌, refl, true, ◌&&◌, ◌≢◌, some, ◌==◌, arith, Option-cases, inl, inr, err, find?-test,
  find?-update_where,
}
use pine_backend.Decimals.{Decimals}
use pine_backend.Store.Errors.{broker_required}
use pine_backend.Store.Rows.{Db, User}
use pine_backend.Accounts.{
  find_user, default_broker_id, ensure_broker, require_broker, set_broker, is_none,
}

module _ ⦃D : Decimals⦄ where
  placed :
      (user_id broker_id : ℕ) (db : Db) (u : User)
      → find_user user_id db ≡ some u
      → is_none u.broker_id ≡ true
      → find_user user_id (set_broker user_id broker_id db)
        ≡ some (record u { broker_id = some broker_id })
  placed user_id broker_id db u found gap =
      let same : (u.id == user_id) ≡ true =
        find?-test (λ (r : User). r.id == user_id) db.users u found in
      let after =
        find?-update_where (λ (r : User). r.id == user_id)
          (λ (r : User). r.id == user_id && is_none r.broker_id)
          (λ (r : User). record r { broker_id = some broker_id }) db.users (λ r. refl) in
      rw (after, found) (ground (arith, same, gap))

  -- Where `ensureBroker` answers true, the account is no longer refused for having no broker, and a
  -- second call answers the same and writes nothing.
  pub ensure_broker_lem :
      (user_id : ℕ) (db : Db)
      → (ensure_broker user_id db).0 ≡ true
      → (require_broker user_id (ensure_broker user_id db).1 ≢ err broker_required)
        × (ensure_broker user_id (ensure_broker user_id db).1
            ≡ (true, (ensure_broker user_id db).1))
  unfolding ensure_broker require_broker
  ensure_broker_lem user_id db h = elim (Option-cases (find_user user_id db)) [
    | inl missing ↦ ground (arith, missing)
    | inr (u, found) ↦ elim (Option-cases (default_broker_id db)) [
      | inl unset ↦ (ground (arith, found, unset), ground (arith, found, unset))
      | inr (b, set) ↦ (
        ground (arith, found, set, placed user_id b db u),
        ground (arith, found, set, placed user_id b db u),
      )
    ]
  ]
