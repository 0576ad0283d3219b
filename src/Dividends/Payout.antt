-- ===== src/Dividends/Payout.antt =====
-- A whole distribution keeps every wallet in agreement with its ledger.
use pine_backend.Base.{
  ℕ, ◌≡◌, refl, ap, ◌∙◌, some, List, [], ◌∷◌, arith, int_laws, inl, inr, ℤ, pos, ◌+ℤ◌, ◌≤ℤ◌, All,
  Bool-cases,
}
use pine_backend.Decimals.{Decimals, IsExact, Fits}
use pine_backend.Store.Rows.{Db, Holding, Wallet, Dividend}
use pine_backend.Store.Lookups.{find_wallet_by_user_id, same_version, posted_to}
use pine_backend.Dividends.{
  pay_holder, pay_all, Totals, no_totals, net_of, distribute_dividend, start_dividend,
  finish_dividend, find_dividend_by_id, find_shareholders_by_stock,
}
use pine_backend.Dividends.Credit.{
  IsCredited, IsUncredited, pay_holder_cash, IsPayable, credited-AllReconciled,
}
use pine_backend.Wallet.Posting.{UniqueWallets, AllReconciled, unmoved-AllReconciled}
use pine_backend.Wallet.Written.{row_before, posting-UniqueWallets}

module _ ⦃D : Decimals⦄ (E : IsExact) (d : Dividend) where
  open D use {Decimal, increment}
  open E use {units, capacity, units_increment}

  -- What a list of holders is to be paid.
  abbrev pub nets : List Holding → ℤ
  nets [] = pos 0
  nets (h ∷ hs) = units (net_of d h) +ℤ nets hs

  -- No wallet would pass the precision if it were given an amount.
  abbrev pub Headroom : ℤ → Db → Type 0
  Headroom amount db =
      (u : ℕ) (w : Wallet)
      → find_wallet_by_user_id u db ≡ some w
      → Fits capacity (units w.balance +ℤ amount)

  nets_nonneg : (hs : List Holding) → All (IsPayable E d) hs → pos 0 ≤ℤ nets hs
  nets_nonneg [] p = omega arith
  nets_nonneg (h ∷ hs) (p, ps) = let first = p.positive in omega (int_laws, nets_nonneg hs ps)

  -- The cash tables are consistent, with room for what is still to be paid.
  pub record IsReady (amount : ℤ) (db : Db) : Type 0 where
    pub unique : UniqueWallets db
    pub reconciled : AllReconciled E db
    pub room : Headroom amount db

  less_room :
      (a b : ℤ) (db : Db)
      → pos 0 ≤ℤ a
      → pos 0 ≤ℤ b
      → AllReconciled E db
      → Headroom (a +ℤ b) db
      → Headroom b db
  less_room a b db p q all room u w found =
      let rich = (all u w found).solvent in let fits = room u w found in grind int_laws

  unpaid-IsReady :
      (h : Holding) (amount : ℤ) (db db' : Db)
      → IsUncredited d h db db'
      → IsReady amount db
      → IsReady amount db'
  unpaid-IsReady h amount db db' same ready = record {
    unique = rw same.wallets ready.unique;
    reconciled = unmoved-AllReconciled E db db' same.wallets same.ledger ready.reconciled;
    room = rw same.wallets ready.room;
  }

  paid-room :
      (h : Holding) (rest : ℤ) (w : Wallet) (db db' : Db)
      → IsPayable E d h
      → pos 0 ≤ℤ rest
      → Fits capacity (units w.balance +ℤ units (net_of d h))
      → IsCredited d h w db db'
      → IsReady (units (net_of d h) +ℤ rest) db
      → Headroom rest db'
  paid-room h rest w db db' payable left fits credited ready v x' new =
      let f = λ (b : Decimal). increment b (net_of d h) in
      let (x, old, row) = row_before w f db db' credited.wallets v x' new in
      let room = ready.room v x old in
      elim (Bool-cases (same_version w x)) [
        | inl hit ↦
            let ids : x.id ≡ w.id = ground (arith, hit) in
            let same : x ≡ w = ready.unique v h.user_id x w old credited.found ids in
            let now : x' ≡ posted_to f x = row ∙ rw hit refl in
            let before = ready.reconciled h.user_id w credited.found in
            let moved =
              units_increment w.balance (net_of d h) before.stored payable.whole_columns fits in
            let here : x' ≡ posted_to f w = now ∙ ap (posted_to f) same in
            let enough : Fits capacity (units w.balance +ℤ (units (net_of d h) +ℤ rest)) =
              rw same at room in
            rw (here, moved) (grind int_laws)
        | inr miss ↦
            let now : x' ≡ x = row ∙ rw miss refl in
            rw now (
              less_room (units (net_of d h)) rest db payable.positive left ready.reconciled
                ready.room v x old)
      ]

  paid-IsReady :
      (h : Holding) (rest : ℤ) (db : Db)
      → IsPayable E d h
      → pos 0 ≤ℤ rest
      → IsReady (units (net_of d h) +ℤ rest) db
      → IsReady rest (pay_holder d h db).1
  paid-IsReady h rest db payable left ready = elim (pay_holder_cash d h db) [
    | inr same ↦ unpaid-IsReady h rest db (pay_holder d h db).1 same (record {
      unique = ready.unique;
      reconciled = ready.reconciled;
      room =
          less_room (units (net_of d h)) rest db payable.positive left ready.reconciled ready.room;
    })
    | inl (w, credited) ↦
        let before = ready.reconciled h.user_id w credited.found in
        let room = ready.room h.user_id w credited.found in
        let rich = before.solvent in
        let positive = payable.positive in
        let fits : Fits capacity (units w.balance +ℤ units (net_of d h)) = grind int_laws in
        record {
          unique =
              posting-UniqueWallets w (λ b. increment b (net_of d h)) db (pay_holder d h db).1
                credited.wallets ready.unique;
          reconciled =
              credited-AllReconciled E d h w db (pay_holder d h db).1 payable fits credited
                ready.unique ready.reconciled;
          room = paid-room h rest w db (pay_holder d h db).1 payable left fits credited ready;
        }
  ]

  pay_all-AllReconciled :
      (hs : List Holding) (t : Totals) (db : Db)
      → All (IsPayable E d) hs
      → IsReady (nets hs) db
      → AllReconciled E (pay_all d hs t db).1
  unfolding pay_all
  pay_all-AllReconciled [] t db p ready = ready.reconciled
  pay_all-AllReconciled (h ∷ hs) t db (p, ps) ready =
      pay_all-AllReconciled hs _ (pay_holder d h db).1 ps
        (paid-IsReady h (nets hs) db p (nets_nonneg hs ps) ready)

  -- Where the dividend is known, its payment to each shareholder is in whole columns and not negative,
  -- wallets are unique, each agrees with its ledger, and none would pass the precision if it were
  -- given the sum of all payments, distributing the dividend leaves every wallet in agreement with
  -- its ledger and not overdrawn, whichever holders it fails for.
  pub distribute_dividend-AllReconciled :
      (id : ℕ) (db : Db)
      → find_dividend_by_id id db ≡ some d
      → All (IsPayable E d) (find_shareholders_by_stock d.stock_id db)
      → UniqueWallets db
      → AllReconciled E db
      → Headroom (nets (find_shareholders_by_stock d.stock_id db)) db
      → AllReconciled E (distribute_dividend id db).1
  unfolding distribute_dividend
  distribute_dividend-AllReconciled id db found payable unique all room =
      let hs = find_shareholders_by_stock d.stock_id db in
      let done : (distribute_dividend id db).1
          ≡ finish_dividend d (pay_all d hs no_totals (start_dividend d db)).1 =
        ground (arith, found) in
      let started = start_dividend d db in
      let paid = (pay_all d hs no_totals started).1 in
      let before = unmoved-AllReconciled E db started refl refl all in
      let after =
        pay_all-AllReconciled hs no_totals started payable
          (record { unique = unique; reconciled = before; room = room }) in
      rw done (unmoved-AllReconciled E paid (finish_dividend d paid) refl refl after)
