-- ===== src/Trading/Tests/Settled.antt =====
-- A sale of one share at 50 kwacha with a fee of one, settled.
use pine_backend.Base.{
  ℕ, zero, suc, ◌+◌, ◌≡◌, refl, some, none, false, pos, ◌+ℤ◌, ◌-ℤ◌, ◌*ℤ◌, quot_ℤ, Result, ok, err,
  arith, Action,
}
use pine_backend.Decimals.{ten_thousandths, ten_thousandths-IsExact}
use pine_backend.Store.Errors.{Error, write_conflict}
use pine_backend.Store.Rows.{Db, Wallet, Holding}
use pine_backend.Store.Lookups.{find_wallet_by_user_id, find_user_holding}
use pine_backend.Store.Example.{a_db, a_wallet}
use pine_backend.Trading.Fees.{sell}
use pine_backend.Trading.Settlement.{
  OrderExecutedEvent, settle_atomically, post_settlement, gross_of, fees_of,
}
use pine_backend.Trading.Settlement.Cash.{IsSettleable, settle-AllReconciled}
use pine_backend.Trading.Settlement.Twice.{settle_twice}
use pine_backend.Trading.Settlement.Holdings.{settle-sell_covered}
use pine_backend.Trading.Settlement.Retry.{Ends, run_with_retry, run_with_retry-Ends}
use pine_backend.Wallet.Posting.{UniqueWallets, AllReconciled}

abbrev a_sale : OrderExecutedEvent
a_sale = record {
  order_id = 31;
  user_id = 1;
  stock_id = 20;
  side = sell;
  quantity = pos 10_000;
  price = pos 500_000;
  total_fees = pos 10_000;
  total_cost = pos 490_000;
  trade_id = 60;
}

abbrev settled_db : Db
unfolding settle_atomically post_settlement ◌+ℤ◌ ◌-ℤ◌ ◌*ℤ◌ quot_ℤ
settled_db = elim (settle_atomically a_sale a_db) [ ok (v, db) ↦ db | err e ↦ a_db ]

settled : settle_atomically a_sale a_db ≡ ok (some 101, settled_db)
unfolding settle_atomically post_settlement ◌+ℤ◌ ◌-ℤ◌ ◌*ℤ◌ quot_ℤ
settled = refl

a_db_wallets : UniqueWallets a_db
a_db_wallets u v a b p q e = ground arith

a_db_reconciled : AllReconciled ten_thousandths-IsExact a_db
unfolding ◌+ℤ◌ ◌-ℤ◌
a_db_reconciled u w p =
    let own : w ≡ a_wallet = ground arith in
    rw own (record { stored = refl; agrees = refl; solvent = omega arith })

a_sale-IsSettleable :
    (w : Wallet)
    → find_wallet_by_user_id 1 a_db ≡ some w
    → IsSettleable ten_thousandths-IsExact a_sale w
unfolding ◌+ℤ◌ ◌-ℤ◌ ◌*ℤ◌ quot_ℤ
a_sale-IsSettleable w p =
    let own : w ≡ a_wallet = ground arith in
    rw own (record { whole_columns = refl; fits = (omega arith, omega arith) })

settle-AllReconciled_example : AllReconciled ten_thousandths-IsExact settled_db
settle-AllReconciled_example =
    settle-AllReconciled ten_thousandths-IsExact a_sale a_db settled_db 101 a_db_wallets
      a_sale-IsSettleable settled a_db_reconciled

settle_twice_example : settle_atomically a_sale settled_db ≡ ok (none, settled_db)
settle_twice_example = settle_twice a_sale a_db settled_db 101 settled

settle-sell_covered_example :
    (h : Holding) × (w : Wallet) × (find_user_holding 1 20 a_db ≡ some h)
    × (ten_thousandths.lt h.quantity (pos 10_000) ≡ false)
    × (find_user_holding 1 20 settled_db ≡ some (record h { quantity = h.quantity -ℤ pos 10_000 }))
    × (find_wallet_by_user_id 1 a_db ≡ some w)
    × (find_wallet_by_user_id 1 settled_db
        ≡ some (record w {
          balance = w.balance +ℤ (gross_of a_sale -ℤ fees_of a_sale);
          version = w.version + 1;
        }))
settle-sell_covered_example = settle-sell_covered a_sale a_db settled_db 101 refl settled

-- an attempt that meets a write conflict until the third
abbrev third_time : ℕ → Action Error ℕ ℕ
third_time (suc (suc (suc zero))) s = (ok s, s)
third_time n s = (err write_conflict, s + 1)

run_with_retry-Ends_example :
    (out : Result Error ℕ × ℕ) × (run_with_retry third_time 0 ≡ some out) × Ends third_time 1 0 out
run_with_retry-Ends_example = run_with_retry-Ends third_time 0
