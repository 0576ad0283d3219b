-- ===== src/Accounts.antt =====
-- Which broker an investor belongs to, `ensureBroker` of src/modules/auth/services/identity.service.ts,
-- and the check of it that deposits and orders make. The mirror of the broker on wallets is left out,
-- and the database answers.
pub mod Brokers
mod Tests
use pine_backend.Base.{
  ℕ, Bool, true, false, not, ◌&&◌, Option, none, some, ◌==◌, if◌then◌else◌, find?, update_where, Tx,
  pure, gets, throw_if, ◌>>=◌, ◌>>◌,
}
use pine_backend.Decimals.{Decimals}
use pine_backend.Store.Errors.{Error, broker_required, broker_unavailable}
use pine_backend.Store.Rows.{Db, User, Broker}

abbrev pub is_none {ℓ} : {A : Type ℓ} → Option A → Bool
is_none none = true
is_none (some a) = false

module _ ⦃D : Decimals⦄ where
  abbrev pub find_user : ℕ → Db → Option User
  find_user user_id db = find? (λ (u : User). u.id == user_id) db.users

  abbrev pub find_broker : ℕ → Db → Option Broker
  find_broker broker_id db = find? (λ (b : Broker). b.id == broker_id) db.brokers

  abbrev if_active : Option Broker → Option ℕ
  if_active none = none
  if_active (some b) = if b.is_active then some b.id else none

  -- `resolveDefaultBrokerId`
  abbrev pub default_broker_id : Db → Option ℕ
  default_broker_id db = elim db.default_broker [
    | none ↦ none
    | some b ↦ if_active (find_broker b db)
  ]

  abbrev pub set_broker : ℕ → ℕ → Db → Db
  set_broker user_id broker_id db = record db {
    users =
        update_where (λ (u : User). u.id == user_id && is_none u.broker_id)
          (λ (u : User). record u { broker_id = some broker_id }) db.users;
  }

  abbrev place : ℕ → Option ℕ → Db → Bool × Db
  place user_id none db = (false, db)
  place user_id (some b) db = (true, set_broker user_id b db)

  abbrev place_user : ℕ → Option User → Db → Bool × Db
  place_user user_id none db = (false, db)
  place_user user_id (some u) db =
      if u.is_deleted
      then (false, db)
      else if not u.is_customer
      then (true, db)
      else if not (is_none u.broker_id)
      then (true, db)
      else place user_id (default_broker_id db) db

  -- `ensureBroker`
  unfoldable pub ensure_broker : ℕ → Db → Bool × Db
  ensure_broker user_id db = place_user user_id (find_user user_id db) db

  abbrev inactive : Option Broker → Bool
  inactive none = false
  inactive (some b) = not b.is_active

  abbrev check_broker : Option ℕ → Tx Error Db (Unit {0})
  check_broker none db = (throw_if true broker_required) db
  check_broker (some b) db = (throw_if (inactive (find_broker b db)) broker_unavailable) db

  abbrev check_trader : Option User → Tx Error Db (Unit {0})
  check_trader none = pure tt
  check_trader (some u) = if u.is_customer then check_broker u.broker_id else pure tt

  -- `if (trader?.role === 'CUSTOMER') …`
  unfoldable pub require_broker : ℕ → Tx Error Db (Unit {0})
  require_broker user_id = do trader ← gets (find_user user_id); check_trader trader
