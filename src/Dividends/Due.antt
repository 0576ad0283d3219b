-- ===== src/Dividends/Due.antt =====
-- The daily run over the dividends that are due leaves none of them due.
use pine_backend.Base.{
  ℕ, ◌≡◌, refl, sym, ap, ◌∙◌, subst, Bool, true, false, ◌&&◌, ◌||◌, none, some, ok, err,
  transaction, List, [], ◌∷◌, All, arith, Option-cases, Bool-cases, inl, inr, ◌==◌, leb, find?,
  filter, update_where, ==_iff, find?-test,
}
use pine_backend.Decimals.{Decimals}
use pine_backend.Store.Rows.{Db, Holding, Dividend, DividendStatus}
use pine_backend.Dividends.{
  is_announced, find_dividend_by_id, create_distribution, credit_holder, pay_holder, pay_all,
  Totals, no_totals, start_dividend, finish_dividend, find_shareholders_by_stock,
  distribute_dividend, find_dividends_due, distribute_each, process_due_dividends,
}
use pine_backend.Trading.Submission.Steps.{Result-cases}

module _ ⦃D : Decimals⦄ where
  open D use {Decimal}

  credit_holder_dividends :
      (d : Dividend) (h : Holding) (db db' : Db) (u : Unit {0})
      → credit_holder d h db ≡ ok (u, db')
      → db'.dividends ≡ db.dividends
  unfolding credit_holder
  credit_holder_dividends d h db db' u ran = ground arith

  create_distribution_dividends :
      (d : Dividend) (h : Holding) (db db' : Db) (u : Unit {0})
      → create_distribution d h db ≡ ok (u, db')
      → db'.dividends ≡ db.dividends
  unfolding create_distribution
  create_distribution_dividends d h db db' u ran = ground arith

  transaction_dividends :
      (d : Dividend) (h : Holding) (db : Db)
      → (transaction (credit_holder d h) db).1.dividends ≡ db.dividends
  transaction_dividends d h db = elim (Result-cases (credit_holder d h db)) [
    | inl ((u, db2), ran) ↦
        let same = credit_holder_dividends d h db db2 u ran in
        let end : transaction (credit_holder d h) db ≡ (ok u, db2) = ground (arith, ran) in
        rw end same
    | inr (e, failed) ↦
        let end : transaction (credit_holder d h) db ≡ (err e, db) = ground (arith, failed) in
        rw end refl
  ]

  pay_holder_dividends :
      (d : Dividend) (h : Holding) (db : Db) → (pay_holder d h db).1.dividends ≡ db.dividends
  unfolding pay_holder
  pay_holder_dividends d h db = elim (Result-cases (create_distribution d h db)) [
    | inl ((u, db1), ran) ↦
        rw ran (transaction_dividends d h db1 ∙ create_distribution_dividends d h db db1 u ran)
    | inr (e, failed) ↦ rw failed refl
  ]

  pay_all_dividends :
      (d : Dividend) (hs : List Holding) (t : Totals) (db : Db)
      → (pay_all d hs t db).1.dividends ≡ db.dividends
  unfolding pay_all
  pay_all_dividends d [] t db = refl
  pay_all_dividends d (h ∷ hs) t db =
      pay_all_dividends d hs _ (pay_holder d h db).1 ∙ pay_holder_dividends d h db

  abbrev with_status : ℕ → DividendStatus → List Dividend → List Dividend
  with_status id status =
      update_where (λ (d : Dividend). d.id == id) (λ (d : Dividend). record d { status = status })

  distributed :
      (id : ℕ) (d : Dividend) (db : Db)
      → find_dividend_by_id id db ≡ some d
      → (distribute_dividend id db).1.dividends
        ≡ with_status d.id DividendStatus.credited
            (with_status d.id DividendStatus.processing db.dividends)
  unfolding distribute_dividend
  distributed id d db found =
      let hs = find_shareholders_by_stock d.stock_id db in
      let done : (distribute_dividend id db).1
          ≡ finish_dividend d (pay_all d hs no_totals (start_dividend d db)).1 =
        ground (arith, found) in
      rw done (
        ap (with_status d.id DividendStatus.credited)
          (pay_all_dividends d hs no_totals (start_dividend d db)))

  not_found :
      (id : ℕ) (db : Db) → find_dividend_by_id id db ≡ none → (distribute_dividend id db).1 ≡ db
  unfolding distribute_dividend
  not_found id db missing = ground (arith, missing)

  module _ (now : ℕ) where
    abbrev is_due : Dividend → Bool
    is_due d = leb d.payment_date now && is_announced d.status

    abbrev among : List Dividend → ℕ → Bool
    among [] i = false
    among (x ∷ xs) i = (i == x.id) || among xs i

    -- Whatever is due is still to come.
    abbrev Covered : List Dividend → List Dividend → Type 0
    Covered todo = All (λ (d : Dividend). is_due d ≡ true → among todo d.id ≡ true)

    credited_one :
        (x : Dividend) (todo rows : List Dividend)
        → Covered (x ∷ todo) rows
        → Covered todo (
            with_status x.id DividendStatus.credited
              (with_status x.id DividendStatus.processing rows))
    credited_one x todo [] p = tt
    credited_one x todo (r ∷ rs) (p, ps) = (
      λ due. elim (Bool-cases (r.id == x.id)) [ inl hit ↦ ground arith | inr miss ↦ ground arith ],
      credited_one x todo rs ps,
    )

    missing_one :
        (x : Dividend) (todo rows : List Dividend)
        → find? (λ (d : Dividend). d.id == x.id) rows ≡ none
        → Covered (x ∷ todo) rows
        → Covered todo rows
    missing_one x todo [] h p = tt
    missing_one x todo (r ∷ rs) h (p, ps) =
        (λ due. ground (arith, p due), missing_one x todo rs (ground arith) ps)

    more : (x : Dividend) (todo rows : List Dividend) → Covered todo rows → Covered (x ∷ todo) rows
    more x todo [] p = tt
    more x todo (r ∷ rs) (p, ps) = (λ due. ground (arith, p due), more x todo rs ps)

    all_due : (rows : List Dividend) → Covered (filter is_due rows) rows
    all_due [] = tt
    all_due (r ∷ rs) = elim (Bool-cases (is_due r)) [
      | inl due ↦
          let kept : filter is_due (r ∷ rs) ≡ r ∷ filter is_due rs = ground (arith, due) in
          subst (λ l. Covered l (r ∷ rs)) (sym kept)
            (λ d. ground arith, more r (filter is_due rs) rs (all_due rs))
      | inr later ↦
          let left : filter is_due (r ∷ rs) ≡ filter is_due rs = ground (arith, later) in
          subst (λ l. Covered l (r ∷ rs)) (sym left) (λ due. ground (arith, later), all_due rs)
    ]

    none_due : (rows : List Dividend) → Covered [] rows → filter is_due rows ≡ []
    none_due [] p = refl
    none_due (r ∷ rs) (p, ps) = ground (arith, p, none_due rs ps)

    distribute_each-Covered :
        (todo : List Dividend) (db : Db)
        → Covered todo db.dividends
        → Covered [] (distribute_each todo db).dividends
    unfolding distribute_each
    distribute_each-Covered [] db p = p
    distribute_each-Covered (x ∷ xs) db p =
        distribute_each-Covered xs (distribute_dividend x.id db).1
          (elim (Option-cases (find_dividend_by_id x.id db)) [
            | inl missing ↦ rw (not_found x.id db missing) (missing_one x xs db.dividends missing p)
            | inr (d, found) ↦
                let same : d.id ≡ x.id =
                  (==_iff d.id x.id).0
                    (find?-test (λ (r : Dividend). r.id == x.id) db.dividends d found) in
                rw (distributed x.id d db found, same) (credited_one x xs db.dividends p)
          ])

    -- After the daily run no announced dividend is past its payment date, whether its distribution
    -- succeeded or not, and a second run at the same time changes nothing.
    pub process_due_dividends_twice :
        (db : Db)
        → (find_dividends_due now (process_due_dividends now db) ≡ [])
          × (process_due_dividends now (process_due_dividends now db)
              ≡ process_due_dividends now db)
    unfolding process_due_dividends distribute_each
    process_due_dividends_twice db =
        let after = process_due_dividends now db in
        let left : find_dividends_due now after ≡ [] =
          none_due after.dividends
            (distribute_each-Covered (find_dividends_due now db) db (all_due db.dividends)) in
        (left, ap (λ ds. distribute_each ds after) left)
