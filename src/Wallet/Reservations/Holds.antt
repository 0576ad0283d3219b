-- ===== src/Wallet/Reservations/Holds.antt =====
-- A hold is placed only where the balance covers it beside the other holds; it is placed once per
-- order; and releasing, consuming and expiring end holds and nothing else.
use pine_backend.Base.{
  ℕ, ◌+◌, ◌≤◌, ◌≡◌, refl, ltb, leb, Bool-cases, sym, subst, ◌∙◌, Bool, false, ◌&&◌, Option, none,
  some, List, [], ◌∷◌, ◌++◌, ◌==◌, filter, find?, map, ok, length, All, update_where, ◌+ℤ◌, ◌-ℤ◌,
  ◌≤ℤ◌, ltb_ℤ, not_ltb_ℤ, arith, int_laws, Option-cases, inl, inr, ◌⊎◌, ==_iff, find?-append,
}
use pine_backend.Decimals.{Decimals, IsExact, Fits, total, sum_or_zero}
use pine_backend.Store.Keys.{ReservationStatus, lapsed, is_active}
use pine_backend.Store.Rows.{Db, Wallet, WalletReservation}
use pine_backend.Store.Lookups.{
  find_wallet_by_user_id, find_reservation_by_order_id, sum_active_reservations, active_amounts,
}
use pine_backend.Wallet.Reservations.{
  expiry, new_hold, place_hold, reserve_funds, end_hold, set_status, is_stale,
  expire_stale_reservations,
}

module _ ⦃D : Decimals⦄ where
  open D use {Decimal, Number, of_number, store, sub, lt}

  abbrev pub is_hold_of : ℕ → WalletReservation → Bool
  is_hold_of order_id r = r.order_id == order_id && is_active r.status

  -- No order has two active holds.
  abbrev pub OneHoldPerOrder : Db → Type 0
  OneHoldPerOrder db = (order_id : ℕ) → length (filter (is_hold_of order_id) db.reservations) ≤ 1

  no_hold :
      (i : ℕ) (rs : List WalletReservation)
      → find? (is_hold_of i) rs ≡ none
      → length (filter (is_hold_of i) rs) ≡ 0
  no_hold i [] e = refl
  no_hold i (r ∷ rs) e = ground (arith, no_hold i rs)

  count_append :
      (i : ℕ) (rs ss : List WalletReservation)
      → length (filter (is_hold_of i) (rs ++ ss))
        ≡ length (filter (is_hold_of i) rs) + length (filter (is_hold_of i) ss)
  count_append i [] ss = omega arith
  count_append i (r ∷ rs) ss = ground (arith, count_append i rs ss)

  -- What a call of `reserveFunds` that returns an id has done: found a hold, or placed one.
  pub record IsPlaced (user_id order_id : ℕ) (amount : Decimal) (expires_at id : ℕ) (db db' : Db)
      : Type 0 where
    pub wallet : Wallet
    pub found : find_wallet_by_user_id user_id db ≡ some wallet
    pub thawed : wallet.is_frozen ≡ false
    pub fresh : find_reservation_by_order_id order_id db ≡ none
    pub covered : lt (sub wallet.balance (sum_active_reservations wallet.id db)) amount ≡ false
    pub rows :
        db'.reservations
        ≡ db.reservations ++ (new_hold id wallet.id order_id amount expires_at ∷ [])
    pub wallets : db'.wallets ≡ db.wallets

  pub record IsRepeated (order_id id : ℕ) (db db' : Db) : Type 0 where
    pub hold : WalletReservation
    pub found : find_reservation_by_order_id order_id db ≡ some hold
    pub same_id : hold.id ≡ id
    pub unchanged : db' ≡ db

  module _ (user_id order_id : ℕ) (amount : Number) (minutes : Option ℕ) (now : ℕ) (db db' : Db)
      (id : ℕ)
      (returned : reserve_funds user_id order_id amount minutes now db ≡ ok (id, db')) where
    pub reserve_funds_cases :
        IsPlaced user_id order_id (of_number amount) (expiry now minutes) id db db'
        ⊎ IsRepeated order_id id db db'
    unfolding reserve_funds place_hold
    reserve_funds_cases = elim (Option-cases (find_wallet_by_user_id user_id db)) [
      | inl missing ↦ ground arith
      | inr (w, found) ↦ elim (Option-cases (find_reservation_by_order_id order_id db)) [
        | inl fresh ↦ inl (record {
          wallet = w;
          found = found;
          thawed = ground arith;
          fresh = fresh;
          covered = ground arith;
          rows = ground arith;
          wallets = ground arith;
        })
        | inr (r, held) ↦
            inr
              (record { hold = r; found = held; same_id = ground arith; unchanged = ground arith })
      ]
    ]

    -- `reserveFunds` never gives an order a second active hold.
    pub reserve_funds-OneHoldPerOrder : OneHoldPerOrder db → OneHoldPerOrder db'
    reserve_funds-OneHoldPerOrder one i = elim reserve_funds_cases [
      | inl placed ↦ rw placed.rows (
          ground (
            arith,
            one i,
            placed.fresh,
            count_append i db.reservations (
                new_hold id placed.wallet.id order_id (of_number amount) (expiry now minutes) ∷ []),
            no_hold order_id db.reservations,
            ==_iff order_id i,
          ))
      | inr repeated ↦ rw repeated.unchanged (one i)
    ]

    pub held_after :
        IsPlaced user_id order_id (of_number amount) (expiry now minutes) id db db'
        → (r : WalletReservation) × (find_reservation_by_order_id order_id db' ≡ some r)
          × (r.id ≡ id)
    held_after placed =
        let hold = new_hold id placed.wallet.id order_id (of_number amount) (expiry now minutes) in
        (
          hold,
          rw (placed.rows, find?-append (is_hold_of order_id) db.reservations, placed.fresh)
              (ground arith),
          refl,
        )

    -- A request repeated for the same order returns the same hold and writes nothing.
    pub reserve_funds_twice :
        (amount' : Number) (minutes' : Option ℕ) (now' : ℕ)
        → reserve_funds user_id order_id amount' minutes' now' db' ≡ ok (id, db')
    unfolding reserve_funds
    reserve_funds_twice amount' minutes' now' = elim reserve_funds_cases [
      | inl placed ↦
          let (r, held, same) = held_after placed in
          ground (arith, placed.found, placed.wallets, placed.thawed, held, same)
      | inr repeated ↦
          ground (arith, repeated.found, repeated.same_id, repeated.unchanged, returned)
    ]

    -- The hold that a call which returns has placed for an order without one.
    pub reserve_funds-placed :
        find_reservation_by_order_id order_id db ≡ none
        → (w : Wallet) × (r : WalletReservation) × (find_wallet_by_user_id user_id db ≡ some w)
          × (find_reservation_by_order_id order_id db' ≡ some r)
          × (r.wallet_id ≡ w.id)
          × (r.amount ≡ store (of_number amount))
    reserve_funds-placed free = elim reserve_funds_cases [
      | inl placed ↦ (
        placed.wallet,
        new_hold id placed.wallet.id order_id (of_number amount) (expiry now minutes),
        placed.found,
        rw (placed.rows, find?-append (is_hold_of order_id) db.reservations, placed.fresh)
            (ground arith),
        refl,
        refl,
      )
      | inr repeated ↦
          let clash : none ≡ some repeated.hold = sym free ∙ repeated.found in absurd (cc clash)
    ]

    -- The hold of the order after a call that returns.
    pub reserve_funds-held :
        (r : WalletReservation) × (find_reservation_by_order_id order_id db' ≡ some r)
    reserve_funds-held = elim reserve_funds_cases [
      | inl placed ↦ let (r, held, same) = held_after placed in (r, held)
      | inr repeated ↦ (repeated.hold, rw repeated.unchanged repeated.found)
    ]

    -- What a call leaves alone.
    pub reserve_funds-keeps :
        (db'.wallets ≡ db.wallets)
        × (db'.ledger ≡ db.ledger)
        × (db'.holdings ≡ db.holdings)
        × (db'.orders ≡ db.orders)
    unfolding reserve_funds place_hold
    reserve_funds-keeps = (ground arith, ground arith, ground arith, ground arith)

  none_left :
      (status : ReservationStatus) (order_id id : ℕ) (rs : List WalletReservation)
      → is_active status ≡ false
      → length (filter (is_hold_of order_id) rs) ≡ 0
      → find? (is_hold_of order_id) (set_status id status rs) ≡ none
  none_left status order_id id [] ended h = refl
  none_left status order_id id (r ∷ rs) ended h = ground (arith, none_left status order_id id rs)

  -- An ended hold is no longer the order's active hold.
  set_status_ended :
      (status : ReservationStatus) (order_id : ℕ) (rs : List WalletReservation)
      (r : WalletReservation)
      → is_active status ≡ false
      → length (filter (is_hold_of order_id) rs) ≤ 1
      → find? (is_hold_of order_id) rs ≡ some r
      → find? (is_hold_of order_id) (set_status r.id status rs) ≡ none
  set_status_ended status order_id [] r ended one h = cc
  set_status_ended status order_id (x ∷ xs) r ended one h =
      ground (arith, none_left status order_id r.id xs, set_status_ended status order_id xs r)

  -- Releasing or consuming ends the active hold of an order that has one at most.
  pub end_hold_lem :
      (status : ReservationStatus) (order_id : ℕ) (db : Db)
      → is_active status ≡ false
      → OneHoldPerOrder db
      → find_reservation_by_order_id order_id (end_hold status order_id db) ≡ none
  unfolding end_hold
  end_hold_lem status order_id db ended one =
      elim (Option-cases (find_reservation_by_order_id order_id db)) [
        | inl nothing ↦ ground arith
        | inr (r, held) ↦ ground (
          arith,
          held,
          set_status_ended status order_id db.reservations r ended (one order_id) held,
        )
      ]

  -- active, and not past its time
  abbrev pub is_current : ℕ → WalletReservation → Bool
  is_current now r = is_active r.status && leb now r.expires_at

  expired_rows :
      (now : ℕ) (rs : List WalletReservation)
      → All
          (λ (r : WalletReservation). (is_active r.status ≡ false) ⊎ (now ≤ r.expires_at))
          (update_where (is_stale now) (λ (r : WalletReservation). record r { status = lapsed }) rs)
  expired_rows now [] = tt
  expired_rows now (r ∷ rs) = elim (Bool-cases (is_active r.status)) [
    | inr ended ↦ (inl (ground (arith, ended)), expired_rows now rs)
    | inl live ↦ elim (Bool-cases (ltb r.expires_at now)) [
      | inl late ↦ (inl (ground (arith, live, late)), expired_rows now rs)
      | inr early ↦ (inr (ground (arith, live, early)), expired_rows now rs)
    ]
  ]

  current_rows :
      (now : ℕ) (rs : List WalletReservation)
      → filter
          (is_current now)
          (update_where (is_stale now) (λ (r : WalletReservation). record r { status = lapsed }) rs)
        ≡ filter (is_current now) rs
  current_rows now [] = refl
  current_rows now (r ∷ rs) = ground (arith, current_rows now rs)

  -- After the expiry job every hold that is still active has an expiry that is not past, and the holds
  -- that were active and not past theirs are all there, unchanged.
  pub expire_stale_reservations_lem :
      (now : ℕ) (db : Db)
      → All
          (λ (r : WalletReservation). (is_active r.status ≡ false) ⊎ (now ≤ r.expires_at))
          (expire_stale_reservations now db).reservations
        × (filter (is_current now) (expire_stale_reservations now db).reservations
            ≡ filter (is_current now) db.reservations)
  unfolding expire_stale_reservations
  expire_stale_reservations_lem now db =
      (expired_rows now db.reservations, current_rows now db.reservations)

module _ ⦃D : Decimals⦄ (E : IsExact) where
  open D use {Decimal, Number, of_number, store, sub, lt}
  open E use {units, capacity, units_sub, lt_units, units_sum}

  reserved_append :
      (wallet_id : ℕ) (rs ss : List WalletReservation)
      → total (map units (active_amounts wallet_id (rs ++ ss)))
        ≡ total (map units (active_amounts wallet_id rs))
          +ℤ total (map units (active_amounts wallet_id ss))
  reserved_append wallet_id [] ss = omega int_laws
  reserved_append wallet_id (r ∷ rs) ss = grind (int_laws, reserved_append wallet_id rs ss)

  own_hold :
      (id wallet_id order_id : ℕ) (amount : Decimal) (expires_at : ℕ)
      → store amount ≡ amount
      → total (
          map units
            (active_amounts wallet_id (new_hold id wallet_id order_id amount expires_at ∷ [])))
        ≡ units amount
  own_hold id wallet_id order_id amount expires_at stored = rw stored (grind int_laws)

  placed_covered :
      (user_id order_id : ℕ) (amount : Decimal) (expires_at id : ℕ) (db db' : Db)
      → (placed : IsPlaced user_id order_id amount expires_at id db db') → store amount ≡ amount
      → Fits capacity
          (units placed.wallet.balance -ℤ units (sum_active_reservations placed.wallet.id db))
      → (units (sum_active_reservations placed.wallet.id db')
          ≡ units (sum_active_reservations placed.wallet.id db) +ℤ units amount)
        × (units (sum_active_reservations placed.wallet.id db') ≤ℤ units placed.wallet.balance)
  unfolding sum_active_reservations
  placed_covered user_id order_id amount expires_at id db db' placed stored fits =
      let w = placed.wallet in
      let hold = new_hold id w.id order_id amount expires_at in
      let before = sum_or_zero (active_amounts w.id db.reservations) in
      let after : units (sum_or_zero (active_amounts w.id db'.reservations))
          ≡ units before +ℤ units amount =
        rw (placed.rows, units_sum (active_amounts w.id (db.reservations ++ (hold ∷ []))))
          (rw (
            reserved_append w.id db.reservations (hold ∷ []),
            ← units_sum (active_amounts w.id db.reservations),
            own_hold id w.id order_id amount expires_at stored,
          )) in
      let room : ltb_ℤ (units w.balance -ℤ units before) (units amount) ≡ false =
        rw (lt_units, units_sub _ _ fits) at placed.covered in
      (
        after,
        rw after
            (omega (int_laws, not_ltb_ℤ (units w.balance -ℤ units before) (units amount) room)),
      )

  -- A call of `reserveFunds` for an order without an active hold that returns has its amount counted
  -- in full, and with it the holds on the wallet do not exceed the balance, where the amount is in
  -- whole columns and the sums are below the precision.
  pub reserve_funds_covered :
      (user_id order_id : ℕ) (amount : Number) (minutes : Option ℕ) (now id : ℕ) (w : Wallet)
      (db db' : Db)
      → find_wallet_by_user_id user_id db ≡ some w
      → find_reservation_by_order_id order_id db ≡ none
      → store (of_number amount) ≡ of_number amount
      → Fits capacity (units w.balance -ℤ units (sum_active_reservations w.id db))
      → reserve_funds user_id order_id amount minutes now db ≡ ok (id, db')
      → (units (sum_active_reservations w.id db')
          ≡ units (sum_active_reservations w.id db) +ℤ units (of_number amount))
        × (units (sum_active_reservations w.id db') ≤ℤ units w.balance)
  reserve_funds_covered user_id order_id amount minutes now id w db db' found fresh stored fits h =
      elim (reserve_funds_cases user_id order_id amount minutes now db db' id h) [
        | inl placed ↦
            let same : some placed.wallet ≡ some w = sym placed.found ∙ found in
            let own : placed.wallet ≡ w = cc same in
            subst
              (λ (x : Wallet).
                (units (sum_active_reservations x.id db')
                  ≡ units (sum_active_reservations x.id db) +ℤ units (of_number amount))
                × (units (sum_active_reservations x.id db') ≤ℤ units x.balance))
              own
              (placed_covered user_id order_id (of_number amount) (expiry now minutes) id db db'
                placed stored (rw own fits))
        | inr repeated ↦
            let clash : none ≡ some repeated.hold = sym fresh ∙ repeated.found in absurd (cc clash)
      ]
