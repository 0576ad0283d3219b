-- ===== src/Trading/Settlement/Twice.antt =====
-- Replaying an execution event changes nothing.
use pine_backend.Base.{
  ℕ, ◌≡◌, refl, ◌&&◌, ◌==◌, none, some, ok, arith, find?-update_where, find?-append,
}
use pine_backend.Decimals.{Decimals}
use pine_backend.Store.Rows.{Db, Wallet, Transaction}
use pine_backend.Store.Keys.{settle, has_key}
use pine_backend.Store.Lookups.{
  find_wallet_by_user_id, find_transaction_by_idempotency_key, same_version, posted_to,
}
use pine_backend.Trading.Settlement.{OrderExecutedEvent, settle_atomically, moved_balance}
use pine_backend.Trading.Settlement.Effects.{IsPosted, settle-IsPosted, settled_transaction}

module _ ⦃D : Decimals⦄ (e : OrderExecutedEvent) where
  -- The user's wallet after a settlement: the balance moved once, the version one higher.
  pub settled_wallet :
      (w : Wallet) (db db' : Db)
      → IsPosted e w db db'
      → find_wallet_by_user_id e.user_id db ≡ some w
      → find_wallet_by_user_id e.user_id db' ≡ some (posted_to (moved_balance e e.side) w)
  settled_wallet w db db' posted found =
      let after =
        find?-update_where (λ (r : Wallet). r.user_id == e.user_id) (same_version w)
          (posted_to (moved_balance e e.side)) db.wallets (λ r. refl) in
      rw (posted.wallets, after, found) (ground arith)

  settled_key :
      (w : Wallet) (db db' : Db)
      → IsPosted e w db db'
      → find_transaction_by_idempotency_key w.id (settle e.trade_id) db ≡ none
      → find_transaction_by_idempotency_key w.id (settle e.trade_id) db'
        ≡ some (settled_transaction e db.next w.id)
  settled_key w db db' posted fresh =
      rw
        (
          posted.transactions,
          find?-append
              (λ (t : Transaction).
                t.wallet_id == w.id && has_key (settle e.trade_id) t.idempotency_key)
              db.transactions,
          fresh,
        )
        (ground arith)

  -- Once the settlement of an execution has returned an id, settling it again returns null and changes nothing.
  pub settle_twice :
      (db db' : Db) (id : ℕ)
      → settle_atomically e db ≡ ok (some id, db')
      → settle_atomically e db' ≡ ok (none, db')
  unfolding settle_atomically
  settle_twice db db' id h =
      let (w, found, fresh, posted) = settle-IsPosted e db db' id h in
      ground (arith, settled_wallet w db db' posted found, settled_key w db db' posted fresh)
