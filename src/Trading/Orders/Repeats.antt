-- ===== src/Trading/Orders/Repeats.antt =====
-- Orders: a repeated key returns the order it made, and when an order can be cancelled.
use pine_backend.Base.{
  ℕ, ◌≡◌, refl, true, ◌&&◌, [], ◌∷◌, arith, some, ok, err, ◌==◌, Option-cases, Bool-cases, inl, inr,
  ◌≢◌, ltb, sym, ◌∙◌, Bool, false, ==_iff, find?-append, find?-test, find?-update_where, ◌⊎◌,
}
use pine_backend.Decimals.{Decimals}
use pine_backend.Store.Keys.{Key, has_key, same_key_refl}
use pine_backend.Store.Errors.{order_not_found, not_cancellable}
use pine_backend.Store.Rows.{Db, Order, order_cancelled}
use pine_backend.Store.Lookups.{find_order_by_id, create_trade_audit, update_order_status}
use pine_backend.Trading.Lifecycle.{
  OrderLifecycleStatus, draft, pending_validation, validated, submitted, accepted, partially_filled,
  filled, pending_settlement, settled, completed, rejected, expired, cancelled, has,
  cancellable_states, assert_transition, can_transition, transitions,
}
use pine_backend.Trading.Lifecycle.Graph.{progress}
use pine_backend.Trading.Orders.{
  OrderRequest, create_order, cancel_order, existing_order, find_stock_by_symbol, new_order,
  find_order_by_idempotency_key,
}

module _ ⦃D : Decimals⦄ where
  create_order-found :
      (now : ℕ) (request : OrderRequest) (db db' : Db) (o : Order) (key : Key)
      → request.idempotency_key ≡ some key
      → create_order now request db ≡ ok (o, db')
      → find_order_by_idempotency_key request.user_id key db' ≡ some o
  unfolding create_order
  create_order-found now request db db' o key keyed h =
      elim (Option-cases (existing_order request db)) [
        | inl fresh ↦ elim (Option-cases (find_stock_by_symbol request.stock_symbol db)) [
          | inl gone ↦ ground arith
          | inr (s, stock) ↦
              let add =
                find?-append
                  (λ (x : Order). x.user_id == request.user_id && has_key key x.idempotency_key)
                  db.orders (new_order now db.next s.id request ∷ []) in
              let same = same_key_refl key in ground (arith, add, same, keyed)
        ]
        | inr (x, old) ↦ ground (arith, keyed)
      ]

  -- Placing an order is idempotent in its key: once a request with a key has returned an order, the
  -- same user's request under that key, at any later time and whatever else it asks, returns that
  -- order and writes nothing.
  pub create_order_twice :
      (now later : ℕ) (first second : OrderRequest) (db db' : Db) (o : Order) (key : Key)
      → first.idempotency_key ≡ some key
      → second.idempotency_key ≡ some key
      → second.user_id ≡ first.user_id
      → create_order now first db ≡ ok (o, db')
      → create_order later second db' ≡ ok (o, db')
  unfolding create_order
  create_order_twice now later first second db db' o key keyed again same h =
      let found = create_order-found now first db db' o key keyed h in
      let query : existing_order second db' ≡ some o = rw (again, same) found in
      ground (arith, query)

  cancellable-cancelled :
      (s : OrderLifecycleStatus)
      → has cancellable_states s ≡ true
      → assert_transition s cancelled ≡ ok tt
  unfolding assert_transition can_transition transitions
  cancellable-cancelled draft h = refl
  cancellable-cancelled pending_validation h = refl
  cancellable-cancelled validated h = refl
  cancellable-cancelled submitted h = refl
  cancellable-cancelled accepted h = ground arith
  cancellable-cancelled partially_filled h = ground arith
  cancellable-cancelled filled h = ground arith
  cancellable-cancelled pending_settlement h = ground arith
  cancellable-cancelled settled h = ground arith
  cancellable-cancelled completed h = ground arith
  cancellable-cancelled rejected h = ground arith
  cancellable-cancelled cancelled h = ground arith
  cancellable-cancelled expired h = ground arith

  cancels :
      (user_id order_id : ℕ) (db : Db) (o : Order)
      → find_order_by_id order_id db ≡ some o
      → (o.user_id == user_id) ≡ true
      → has cancellable_states o.status ≡ true
      → (db' : Db) × (cancel_order user_id order_id db ≡ ok (tt, db'))
        × (find_order_by_id order_id db' ≡ some (record o { status = cancelled }))
        × (db'.wallets ≡ db.wallets)
        × (db'.reservations ≡ db.reservations)
        × (db'.holdings ≡ db.holdings)
  unfolding cancel_order
  cancels user_id order_id db o found own can =
      let step = cancellable-cancelled o.status can in
      let same : (o.id == order_id) ≡ true =
        find?-test (λ (x : Order). x.id == order_id) db.orders o found in
      let after =
        find?-update_where (λ (x : Order). x.id == order_id) (λ (x : Order). x.id == order_id)
          (λ (x : Order). record x { status = cancelled }) db.orders (λ x. refl) in
      let db' =
        create_trade_audit
          (record {
            order_id = order_id;
            user_id = user_id;
            action = order_cancelled;
            from_status = some o.status;
            to_status = some cancelled;
          })
          (update_order_status order_id cancelled (λ (x : Order). x) db) in
      (
        db',
        ground (arith, found, own, can, step),
        rw (after, found) (ground (arith, same)),
        refl,
        refl,
        refl,
      )

  -- An order that no broker has accepted yet and that has not ended.
  abbrev pub before_broker : OrderLifecycleStatus → Bool
  before_broker s = ltb (progress s) (progress accepted)

  cancellable_iff : (s : OrderLifecycleStatus) → has cancellable_states s ≡ before_broker s
  cancellable_iff s = ground arith

  -- Cancelling an order that exists: the user's own order that no broker has accepted yet and that has
  -- not ended is CANCELLED, with no balance, hold or holding changed; an order of another user is
  -- refused as not found, and the user's own order in any other state as not cancellable.
  pub cancel_order_lem :
      (user_id order_id : ℕ) (db : Db) (o : Order)
      → find_order_by_id order_id db ≡ some o
      → ((o.user_id ≡ user_id)
          × (before_broker o.status ≡ true)
          × ((db' : Db) × (cancel_order user_id order_id db ≡ ok (tt, db'))
              × (find_order_by_id order_id db' ≡ some (record o { status = cancelled }))
              × (db'.wallets ≡ db.wallets)
              × (db'.reservations ≡ db.reservations)
              × (db'.holdings ≡ db.holdings)))
        ⊎ (((o.user_id ≢ user_id) × (cancel_order user_id order_id db ≡ err order_not_found))
            ⊎ ((o.user_id ≡ user_id)
                × (before_broker o.status ≡ false)
                × (cancel_order user_id order_id db ≡ err not_cancellable)))
  unfolding cancel_order
  cancel_order_lem user_id order_id db o found = elim (Bool-cases (o.user_id == user_id)) [
    | inl own ↦ elim (Bool-cases (has cancellable_states o.status)) [
      | inl can ↦ inl (
        (==_iff _ _).0 own,
        sym (cancellable_iff o.status) ∙ can,
        cancels user_id order_id db o found own can,
      )
      | inr late ↦ inr (
          inr (
            (==_iff _ _).0 own,
            sym (cancellable_iff o.status) ∙ late,
            ground (arith, found, own, late),
          ))
    ]
    | inr other ↦ inr (inl ((λ e. ground arith), ground (arith, found, other)))
  ]
