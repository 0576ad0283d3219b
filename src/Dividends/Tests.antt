-- ===== src/Dividends/Tests.antt =====
-- A dividend of two kwacha on five shares, a tenth of it withheld.
use pine_backend.Base.{◌≡◌, refl, ◌∷◌, [], err, ◌+ℤ◌, ◌-ℤ◌, ◌*ℤ◌, quot_ℤ, arith}
use pine_backend.Decimals.{ten_thousandths, ten_thousandths-IsExact}
use pine_backend.Store.Errors.{unique_violation}
use pine_backend.Store.Example.{a_db, a_dividend, a_holding, a_wallet}
use pine_backend.Dividends.{
  pay_holder, distribute_dividend, find_shareholders_by_stock, find_dividends_due,
  process_due_dividends,
}
use pine_backend.Dividends.Credit.{IsPayable}
use pine_backend.Dividends.Due.{process_due_dividends_twice}
use pine_backend.Dividends.Once.{pay_holder_twice}
use pine_backend.Dividends.Payout.{Headroom, nets, distribute_dividend-AllReconciled}
use pine_backend.Wallet.Posting.{AllReconciled}
use pine_backend.Wallet.Tests.{a_db-UniqueWallets, a_db-AllReconciled}

pay_holder_twice_example :
    pay_holder a_dividend a_holding (pay_holder a_dividend a_holding a_db).1
    ≡ (err unique_violation, (pay_holder a_dividend a_holding a_db).1)
pay_holder_twice_example = pay_holder_twice a_dividend a_holding a_db

a_holding-IsPayable : IsPayable ten_thousandths-IsExact a_dividend a_holding
unfolding ◌+ℤ◌ ◌-ℤ◌ ◌*ℤ◌ quot_ℤ
a_holding-IsPayable = record { whole_columns = refl; positive = omega arith }

holders : find_shareholders_by_stock 20 a_db ≡ a_holding ∷ []
holders = refl

room :
    Headroom ten_thousandths-IsExact a_dividend
      (nets ten_thousandths-IsExact a_dividend (find_shareholders_by_stock 20 a_db))
      a_db
unfolding ◌+ℤ◌ ◌-ℤ◌ ◌*ℤ◌ quot_ℤ
room u w found = let own : w ≡ a_wallet = ground arith in rw own (omega arith)

distribute_dividend-AllReconciled_example :
    AllReconciled ten_thousandths-IsExact (distribute_dividend 90 a_db).1
distribute_dividend-AllReconciled_example =
    distribute_dividend-AllReconciled ten_thousandths-IsExact a_dividend 90 a_db refl
      (a_holding-IsPayable, tt) a_db-UniqueWallets a_db-AllReconciled room

process_due_dividends_twice_example :
    (find_dividends_due 7 (process_due_dividends 7 a_db) ≡ [])
    × (process_due_dividends 7 (process_due_dividends 7 a_db) ≡ process_due_dividends 7 a_db)
process_due_dividends_twice_example = process_due_dividends_twice 7 a_db
