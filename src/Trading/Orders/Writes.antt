-- ===== src/Trading/Orders/Writes.antt =====
-- What a write to an order's row does to the query of it by id.
use pine_backend.Base.{
  ℕ, ◌≡◌, refl, true, List, some, ◌==◌, arith, find?, find?-test, find?-update_where, update_where,
}
use pine_backend.Decimals.{Decimals}
use pine_backend.Store.Rows.{Db, Order}
use pine_backend.Store.Lookups.{find_order_by_id, update_order_status}
use pine_backend.Trading.Lifecycle.{OrderLifecycleStatus}

module _ ⦃D : Decimals⦄ where
  pub written :
      (id : ℕ) (f : Order → Order) (rows : List Order) (x o : Order)
      → o.id ≡ id
      → ((x : Order) → (f x).id ≡ x.id)
      → find? (λ (x : Order). x.id == id) rows ≡ some x
      → find? (λ (x : Order). x.id == id) (update_where (λ (x : Order). x.id == o.id) f rows)
        ≡ some (f x)
  written id f rows x o own keeps found =
      let after =
        find?-update_where (λ (x : Order). x.id == id) (λ (x : Order). x.id == o.id) f rows
          (λ x. rw (keeps x) refl) in
      let same : (x.id == id) ≡ true = find?-test (λ (r : Order). r.id == id) rows x found in
      let hit : (x.id == o.id) ≡ true = rw own same in rw (after, found) (ground (arith, hit))

  -- The order of an id is there, in a status.
  abbrev pub IsAt : ℕ → OrderLifecycleStatus → Db → Type 0
  IsAt id s db = (o : Order) × (find_order_by_id id db ≡ some o) × (o.status ≡ s)

  pub update_order_status-IsAt :
      (id : ℕ) (s : OrderLifecycleStatus) (extra : Order → Order) (db : Db) (x o : Order)
      → o.id ≡ id
      → ((r : Order) → (extra r).id ≡ r.id)
      → find_order_by_id id db ≡ some x
      → IsAt id s (update_order_status o.id s extra db)
  update_order_status-IsAt id s extra db x o own keeps found =
      let f = λ (r : Order). let r' = extra r in record r' { status = s } in
      (f x, written id f db.orders x o own keeps found, refl)

  pub update_order_status-found :
      (id : ℕ) (s : OrderLifecycleStatus) (extra : Order → Order) (db : Db) (x o : Order)
      → o.id ≡ id
      → ((r : Order) → (extra r).id ≡ r.id)
      → find_order_by_id id db ≡ some x
      → find_order_by_id id (update_order_status o.id s extra db)
        ≡ some (let r' = extra x in record r' { status = s })
  update_order_status-found id s extra db x o own keeps found =
      written id (λ r. let r' = extra r in record r' { status = s }) db.orders x o own keeps found
