-- ===== src/Wallet/Reservations.antt =====
-- Holds on a wallet's funds for pending orders, src/modules/wallet/services/reservation.service.ts.
pub mod Holds
use pine_backend.Base.{
  ℕ, zero, suc, ◌+◌, ◌*◌, Bool, true, false, ◌&&◌, Option, none, some, List, [], ◌∷◌, ◌++◌, ◌==◌,
  ltb, if◌then◌else◌, filter, find?, update_where, map, Tx, pure, gets, modify, throw_if, or_throw,
  ◌>>=◌, ◌>>◌,
}
use pine_backend.Decimals.{Decimals, nought}
use pine_backend.Store.Keys.{ReservationStatus, active, consumed, released, lapsed, is_active}
use pine_backend.Store.Errors.{Error, wallet_not_found, wallet_frozen, insufficient_funds}
use pine_backend.Store.Rows.{Db, Wallet, WalletReservation}
use pine_backend.Store.Lookups.{
  find_wallet_by_user_id, find_reservation_by_order_id, sum_active_reservations,
}

-- `expiresInMinutes ? now + minutes : now + 24h`, in milliseconds; 0 is falsy
abbrev pub expiry : ℕ → Option ℕ → ℕ
expiry now none = now + 24 * 60 * 60_000
expiry now (some zero) = now + 24 * 60 * 60_000
expiry now (some (suc m)) = now + suc m * 60_000

module _ ⦃D : Decimals⦄ where
  open D use {Decimal, Number, add, sub, lt, of_number, store}

  abbrev pub new_hold : ℕ → ℕ → ℕ → Decimal → ℕ → WalletReservation
  new_hold id wallet_id order_id amount expires_at = record {
    id = id;
    wallet_id = wallet_id;
    order_id = order_id;
    amount = store amount;
    status = active;
    expires_at = expires_at;
  }

  -- the part of `reserveFunds` that a new hold reaches
  unfoldable pub place_hold : Wallet → ℕ → Decimal → ℕ → Tx Error Db ℕ
  place_hold wallet order_id amount expires_at = do
    reserved ← gets (sum_active_reservations wallet.id)
    throw_if (lt (sub wallet.balance reserved) amount) insufficient_funds
    id ← gets (λ (db : Db). db.next)
    modify λ (db : Db). record db {
      reservations =
          db.reservations ++ (new_hold db.next wallet.id order_id amount expires_at ∷ []);
      next = suc db.next;
    }
    pure id

  -- one transaction: check and hold
  unfoldable pub reserve_funds : ℕ → ℕ → Number → Option ℕ → ℕ → Tx Error Db ℕ
  reserve_funds user_id order_id amount expires_in_minutes now = do
    wallet ← or_throw (← gets (find_wallet_by_user_id user_id)) wallet_not_found
    throw_if wallet.is_frozen wallet_frozen
    existing ← gets (find_reservation_by_order_id order_id)
    elim existing [
      | some r ↦ pure r.id
      | none ↦ place_hold wallet order_id (of_number amount) (expiry now expires_in_minutes)
    ]

  -- `update` by id
  abbrev pub set_status : ℕ → ReservationStatus → List WalletReservation → List WalletReservation
  set_status id status =
      update_where (λ (r : WalletReservation). r.id == id)
        (λ (r : WalletReservation). record r { status = status })

  -- `consumeReservation` and `releaseReservation`: nothing where the order has no active hold
  unfoldable pub end_hold : ReservationStatus → ℕ → Db → Db
  end_hold status order_id db = elim (find_reservation_by_order_id order_id db) [
    | none ↦ db
    | some r ↦ record db { reservations = set_status r.id status db.reservations }
  ]

  unfoldable pub consume_reservation : ℕ → Db → Db
  unfolding end_hold
  consume_reservation = end_hold consumed

  -- the handler of cancelled and rejected orders too
  unfoldable pub release_reservation : ℕ → Db → Db
  unfolding end_hold
  release_reservation = end_hold released

  abbrev pub is_stale : ℕ → WalletReservation → Bool
  is_stale now r = is_active r.status && ltb r.expires_at now

  -- the cron job, with `expireReservations`
  unfoldable pub expire_stale_reservations : ℕ → Db → Db
  expire_stale_reservations now db = record db {
    reservations =
        update_where (is_stale now) (λ (r : WalletReservation). record r { status = lapsed })
          db.reservations;
  }

  -- `reduce` from the left
  abbrev sum_from : Decimal → List WalletReservation → Decimal
  sum_from acc [] = acc
  sum_from acc (r ∷ rs) = sum_from (add acc r.amount) rs

  abbrev holds_on : ℕ → List WalletReservation → List WalletReservation
  holds_on wallet_id =
      filter λ (r : WalletReservation). r.wallet_id == wallet_id && is_active r.status

  -- the user's active holds and their total
  unfoldable pub get_active_reservations : ℕ → Db → List WalletReservation × Decimal
  get_active_reservations user_id db = elim (find_wallet_by_user_id user_id db) [
    | none ↦ ([], nought)
    | some w ↦ let holds = holds_on w.id db.reservations in (holds, sum_from nought holds)
  ]
