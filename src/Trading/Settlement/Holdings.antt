-- ===== src/Trading/Settlement/Holdings.antt =====
-- Settlement and positions: a sale never takes more shares than the position holds, and cash never
-- moves without the shares.
use pine_backend.Base.{
  ℕ, ◌≡◌, refl, subst, inl, inr, true, false, some, ok, arith, find?-update_where, find?-test,
  update_where, ◌+◌, Option-cases,
}
use pine_backend.Decimals.{Decimals}
use pine_backend.Store.Rows.{Db, Wallet, Holding}
use pine_backend.Store.Lookups.{find_user_holding, find_wallet_by_user_id, posted_to}
use pine_backend.Trading.Fees.{sell}
use pine_backend.Trading.Settlement.{
  OrderExecutedEvent, settle_atomically, post_settlement, is_position, sold, uncovered,
  moved_balance, gross_of, fees_of,
}
use pine_backend.Trading.Settlement.Effects.{settle-IsPosted}
use pine_backend.Trading.Settlement.Twice.{settled_wallet}

module _ ⦃D : Decimals⦄ (e : OrderExecutedEvent) where
  open D use {Decimal, Number, of_number, store, sub, add, lt}

  post_settlement-covered :
      (w : Wallet) (db db' : Db) (id : ℕ)
      → e.side ≡ sell
      → post_settlement e w db ≡ ok (id, db')
      → (uncovered e (find_user_holding e.user_id e.stock_id db) ≡ false)
        × (db'.holdings
            ≡ update_where
                (is_position e)
                (sold e (find_user_holding e.user_id e.stock_id db))
                db.holdings)
  unfolding post_settlement
  post_settlement-covered w db db' id side h = ground arith

  sold_position :
      (held : Holding) (db db' : Db)
      → find_user_holding e.user_id e.stock_id db ≡ some held
      → db'.holdings ≡ update_where (is_position e) (sold e (some held)) db.holdings
      → find_user_holding e.user_id e.stock_id db' ≡ some (sold e (some held) held)
  sold_position held db db' found written =
      let after =
        find?-update_where (is_position e) (is_position e) (sold e (some held)) db.holdings
          (λ g. refl) in
      rw (written, after, found) (rw (find?-test (is_position e) db.holdings held found))

  sold_wallet :
      (w : Wallet) (db' : Db)
      → e.side ≡ sell
      → find_wallet_by_user_id e.user_id db' ≡ some (posted_to (moved_balance e e.side) w)
      → find_wallet_by_user_id e.user_id db' ≡ some (posted_to (moved_balance e sell) w)
  sold_wallet w db' side =
      subst (λ s. find_wallet_by_user_id e.user_id db' ≡ some (posted_to (moved_balance e s) w))
        side

  -- A sale settles only against a position that holds the shares, and takes them from it; its cash
  -- is credited in the same commit.
  pub settle-sell_covered :
      (db db' : Db) (id : ℕ)
      → e.side ≡ sell
      → settle_atomically e db ≡ ok (some id, db')
      → (h : Holding) × (w : Wallet) × (find_user_holding e.user_id e.stock_id db ≡ some h)
        × (lt h.quantity (of_number e.quantity) ≡ false)
        × (find_user_holding e.user_id e.stock_id db'
            ≡ some (record h { quantity = store (sub h.quantity (of_number e.quantity)) }))
        × (find_wallet_by_user_id e.user_id db ≡ some w)
        × (find_wallet_by_user_id e.user_id db'
            ≡ some (record w {
              balance = D.increment w.balance (sub (gross_of e) (fees_of e));
              version = w.version + 1;
            }))
  unfolding settle_atomically
  settle-sell_covered db db' id side h =
      let (w, found, fresh, posted) = settle-IsPosted e db db' id h in
      let (covered, written) =
        post_settlement-covered w db db' id side (ground (arith, found, fresh)) in
      elim (Option-cases (find_user_holding e.user_id e.stock_id db)) [
        | inl none_held ↦ let c : true ≡ false = rw none_held at covered in cc c
        | inr (held, position) ↦ (
          held,
          w,
          position,
          rw position at covered,
          sold_position held db db' position (rw position at written),
          found,
          sold_wallet w db' side (settled_wallet e w db db' posted found),
        )
      ]
