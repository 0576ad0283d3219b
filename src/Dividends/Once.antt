-- ===== src/Dividends/Once.antt =====
-- A holder is paid at most once for a dividend, and never again after a failure.
use pine_backend.Base.{
  ◌≡◌, some, ok, err, transaction, [], ◌∷◌, arith, Option-cases, inl, inr, find?, find?-append,
}
use pine_backend.Decimals.{Decimals}
use pine_backend.Store.Errors.{Error, unique_violation}
use pine_backend.Store.Rows.{Db, Holding, Dividend, Distribution}
use pine_backend.Dividends.{
  pay_holder, create_distribution, credit_holder, is_distribution, gross_of, tax_of, net_of,
}
use pine_backend.Trading.Submission.Steps.{Result-cases}

module _ ⦃D : Decimals⦄ (d : Dividend) (h : Holding) where
  abbrev pub IsRecorded : Db → Type 0
  IsRecorded db =
      (r : Distribution) × (find? (is_distribution d.id h.user_id) db.distributions ≡ some r)

  pub recorded :
      (db db' : Db) (u : Unit {0}) → create_distribution d h db ≡ ok (u, db') → IsRecorded db'
  unfolding create_distribution
  recorded db db' u ran =
      elim (Option-cases (find? (is_distribution d.id h.user_id) db.distributions)) [
        | inr (r, taken) ↦ ground arith
        | inl free ↦
            let row : Distribution = record {
              dividend_id = d.id;
              user_id = h.user_id;
              quantity_held = D.store h.quantity;
              gross_amount = D.store (gross_of d h);
              tax_withheld = D.store (tax_of d h);
              net_amount = D.store (net_of d h);
            } in
            let add = find?-append (is_distribution d.id h.user_id) db.distributions (row ∷ []) in
            (row, ground (arith, add, free))
      ]

  already : (db : Db) (e : Error) → create_distribution d h db ≡ err e → IsRecorded db
  unfolding create_distribution
  already db e failed =
      elim (Option-cases (find? (is_distribution d.id h.user_id) db.distributions)) [
        | inr (r, taken) ↦ (r, taken)
        | inl free ↦ ground (arith, free)
      ]

  credit_holder_distributions :
      (db db' : Db) (u : Unit {0})
      → credit_holder d h db ≡ ok (u, db')
      → db'.distributions ≡ db.distributions
  unfolding credit_holder
  credit_holder_distributions db db' u ran = ground arith

  credit_holder_closed :
      (db1 : Db) → IsRecorded db1 → IsRecorded (transaction (credit_holder d h) db1).1
  credit_holder_closed db1 (r, found) = elim (Result-cases (credit_holder d h db1)) [
    | inl ((u, db2), ran) ↦
        let same = credit_holder_distributions db1 db2 u ran in
        let end : transaction (credit_holder d h) db1 ≡ (ok u, db2) = ground (arith, ran) in
        rw end (r, rw same found)
    | inr (e, failed) ↦
        let end : transaction (credit_holder d h) db1 ≡ (err e, db1) = ground (arith, failed) in
        rw end (r, found)
  ]

  refused : (db : Db) → IsRecorded db → pay_holder d h db ≡ (err unique_violation, db)
  unfolding pay_holder create_distribution
  refused db (r, found) = ground (arith, found)

  pub pay_holder-IsRecorded : (db : Db) → IsRecorded (pay_holder d h db).1
  unfolding pay_holder
  pay_holder-IsRecorded db = elim (Result-cases (create_distribution d h db)) [
    | inl ((u, db1), ran) ↦ rw ran (credit_holder_closed db1 (recorded db db1 u ran))
    | inr (e, failed) ↦ rw failed (already db e failed)
  ]

  -- Paying a holder is tried once: whatever a first attempt came to, a credit or an error, a second
  -- one for the same dividend is refused and writes nothing.
  pub pay_holder_twice :
      (db : Db)
      → pay_holder d h (pay_holder d h db).1 ≡ (err unique_violation, (pay_holder d h db).1)
  pay_holder_twice db = refused (pay_holder d h db).1 (pay_holder-IsRecorded db)
