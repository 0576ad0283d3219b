-- ===== src/Cash/Tests.antt =====
-- A dividend paid.
use pine_backend.Base.{◌≡◌, refl, ◌+ℤ◌, ◌-ℤ◌, ◌*ℤ◌, quot_ℤ, arith}
use pine_backend.Decimals.{ten_thousandths, ten_thousandths-IsExact}
use pine_backend.Store.Example.{a_db, a_dividend, a_holding, a_wallet}
use pine_backend.Store.Rows.{Db}
use pine_backend.Dividends.{pay_holder}
use pine_backend.Cash.{◌⇒◌, ◌⟶◌, paid, IsInRange}
use pine_backend.Cash.Refinement.{IsConsistent, accounts, step-Refines}
use pine_backend.Wallet.Tests.{a_db-UniqueWallets, a_db-OneWalletPerUser, a_db-AllReconciled}

a_db-IsConsistent : IsConsistent ten_thousandths-IsExact a_db
a_db-IsConsistent = record {
  unique = a_db-UniqueWallets;
  one = a_db-OneWalletPerUser;
  reconciled = a_db-AllReconciled;
}

abbrev paid_db : Db
paid_db = (pay_holder a_dividend a_holding a_db).1

abbrev a_payment : a_db ⟶ paid_db
a_payment = paid a_dividend a_holding (pay_holder a_dividend a_holding a_db).0 refl

a_payment-IsInRange : IsInRange ten_thousandths-IsExact a_payment
unfolding IsInRange ◌+ℤ◌ ◌-ℤ◌ ◌*ℤ◌ quot_ℤ
a_payment-IsInRange = (
  record { whole_columns = refl; positive = omega arith },
  λ w found. let own : w ≡ a_wallet = ground arith in rw own (omega arith),
)

step-Refines_example :
    (accounts ten_thousandths-IsExact a_db ⇒ accounts ten_thousandths-IsExact paid_db)
    × IsConsistent ten_thousandths-IsExact paid_db
step-Refines_example =
    step-Refines ten_thousandths-IsExact a_db paid_db a_payment a_payment-IsInRange
      a_db-IsConsistent
