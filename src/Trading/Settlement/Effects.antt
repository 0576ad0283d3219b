-- ===== src/Trading/Settlement/Effects.antt =====
-- What a settlement that returns an id has written, table by table, and when it is refused.
use pine_backend.Base.{
  ℕ, ◌≡◌, false, none, some, [], ◌∷◌, ◌++◌, map, arith, update_where, ok, Option-cases, inl, inr,
}
use pine_backend.Decimals.{Decimals}
use pine_backend.Store.Keys.{settle, completed}
use pine_backend.Store.Rows.{no_metadata, Db, Wallet, Transaction}
use pine_backend.Store.Lookups.{
  same_version, posted_to, find_wallet_by_user_id, find_transaction_by_idempotency_key,
}
use pine_backend.Trading.Settlement.{
  settle_atomically, OrderExecutedEvent, post_settlement, moved_balance, entry_of, legs_of,
  cash_type, cash_delta, overdrawn,
}

module _ ⦃D : Decimals⦄ (e : OrderExecutedEvent) where
  open D use {Decimal, store}

  abbrev pub settled_transaction : ℕ → ℕ → Transaction
  settled_transaction id wallet_id = record {
    id = id;
    wallet_id = wallet_id;
    type = cash_type e.side;
    status = completed;
    amount = store (cash_delta e e.side);
    idempotency_key = some (settle e.trade_id);
    related_order_id = some e.order_id;
    processing_fee = none;
    metadata = no_metadata;
  }

  -- The cash tables after a settlement from `w`.
  pub record IsPosted (w : Wallet) (db db' : Db) : Type 0 where
    pub solvent : overdrawn e e.side w ≡ false
    pub wallets :
        db'.wallets ≡ update_where (same_version w) (posted_to (moved_balance e e.side)) db.wallets
    pub transactions : db'.transactions ≡ db.transactions ++ (settled_transaction db.next w.id ∷ [])
    pub ledger : db'.ledger ≡ db.ledger ++ map (entry_of db.next) (legs_of e e.side w)

  post_settlement-IsPosted :
      (w : Wallet) (db db' : Db) (id : ℕ)
      → post_settlement e w db ≡ ok (id, db')
      → IsPosted w db db'
  unfolding post_settlement
  post_settlement-IsPosted w db db' id h = ground arith

  -- A settlement that returns an id found the user's wallet and no earlier settlement of the
  -- execution, and posted it.
  pub settle-IsPosted :
      (db db' : Db) (id : ℕ)
      → settle_atomically e db ≡ ok (some id, db')
      → (w : Wallet) × (find_wallet_by_user_id e.user_id db ≡ some w)
        × (find_transaction_by_idempotency_key w.id (settle e.trade_id) db ≡ none)
        × IsPosted w db db'
  unfolding settle_atomically
  settle-IsPosted db db' id h = elim (Option-cases (find_wallet_by_user_id e.user_id db)) [
    | inl missing ↦ ground arith
    | inr (w, found) ↦
        elim (Option-cases (find_transaction_by_idempotency_key w.id (settle e.trade_id) db)) [
          | inl fresh ↦
              (w, found, fresh, post_settlement-IsPosted w db db' id (ground (arith, fresh)))
          | inr (t, taken) ↦ ground arith
        ]
  ]
