-- ===== src/Wallet/Tests.antt =====
-- The theorems on wallets at a concrete database.
use pine_backend.Base.{
  ◌≡◌, refl, some, none, false, ℤ, pos, ◌+ℤ◌, ◌-ℤ◌, ok, err, arith, ◌≤ℤ◌, ◌⊎◌, All, ◌≤◌, filter,
}
use pine_backend.Decimals.{ten_thousandths, ten_thousandths-IsExact}
use pine_backend.Store.Errors.{already_processed, withdrawal_not_found}
use pine_backend.Store.Keys.{is_active}
use pine_backend.Store.Rows.{Db, Wallet, Transaction, WalletReservation}
use pine_backend.Store.Lookups.{find_wallet_by_id, find_transaction_by_id, sum_active_reservations}
use pine_backend.Store.Example.{a_db, a_wallet, a_deposit, a_withdrawal}
use pine_backend.Wallet.Posting.{UniqueWallets, AllReconciled}
use pine_backend.Wallet.Reservations.{reserve_funds, place_hold, expire_stale_reservations}
use pine_backend.Wallet.Reservations.Holds.{
  OneHoldPerOrder, is_current, reserve_funds_covered, expire_stale_reservations_lem,
}
use pine_backend.Wallet.Balances.{Reconciliation, reconcile, reconcile_lem}
use pine_backend.Wallet.Transfers.{process_deposit, process_withdrawal, reject_withdrawal}
use pine_backend.Wallet.Written.{OneWalletPerUser}
use pine_backend.Wallet.Transfers.Cash.{IsCreditable, IsDebitable}
use pine_backend.Wallet.Transfers.States.{
  by_withdrawal, by_rejection, end_by, ends_once, reject_withdrawal_lem,
}

pub a_db-UniqueWallets : UniqueWallets a_db
a_db-UniqueWallets u v a b p q e = ground arith

pub a_db-OneWalletPerUser : OneWalletPerUser a_db
a_db-OneWalletPerUser i w p = ground arith

pub a_db-AllReconciled : AllReconciled ten_thousandths-IsExact a_db
unfolding ◌+ℤ◌ ◌-ℤ◌
a_db-AllReconciled u w p =
    let own : w ≡ a_wallet = ground arith in
    rw own (record { stored = refl; agrees = refl; solvent = omega arith })

abbrev deposited_db : Db
unfolding process_deposit ◌+ℤ◌ ◌-ℤ◌
deposited_db = elim (process_deposit 41 a_db) [ ok (v, db) ↦ db | err e ↦ a_db ]

deposited : process_deposit 41 a_db ≡ ok (tt, deposited_db)
unfolding process_deposit ◌+ℤ◌ ◌-ℤ◌
deposited = refl

pub a_deposit-IsCreditable :
    (t : Transaction) (w : Wallet)
    → find_transaction_by_id 41 a_db ≡ some t
    → find_wallet_by_id t.wallet_id a_db ≡ some w
    → IsCreditable ten_thousandths-IsExact t w
unfolding ◌+ℤ◌ ◌-ℤ◌
a_deposit-IsCreditable t w p q =
    let row : t ≡ a_deposit = ground arith in
    let own : w ≡ a_wallet = ground arith in
    rw (row, own) (record { whole_columns = refl; positive = omega arith; fits = omega arith })

abbrev withdrawn_db : Db
unfolding process_withdrawal ◌+ℤ◌ ◌-ℤ◌
withdrawn_db = elim (process_withdrawal 42 a_db) [ ok (v, db) ↦ db | err e ↦ a_db ]

withdrawn : process_withdrawal 42 a_db ≡ ok (tt, withdrawn_db)
unfolding process_withdrawal ◌+ℤ◌ ◌-ℤ◌
withdrawn = refl

a_withdrawal-IsDebitable :
    (t : Transaction) (w : Wallet)
    → find_transaction_by_id 42 a_db ≡ some t
    → find_wallet_by_id t.wallet_id a_db ≡ some w
    → IsDebitable ten_thousandths-IsExact t w
unfolding ◌+ℤ◌ ◌-ℤ◌
a_withdrawal-IsDebitable t w p q =
    let row : t ≡ a_withdrawal = ground arith in
    let own : w ≡ a_wallet = ground arith in
    rw (row, own) (record { whole_columns = refl; fits = omega arith })

ends_once_example :
    (end_by by_rejection 42 withdrawn_db ≡ err already_processed)
    ⊎ (end_by by_rejection 42 withdrawn_db ≡ err withdrawal_not_found)
ends_once_example = ends_once by_withdrawal by_rejection 42 a_db withdrawn_db tt withdrawn

abbrev refused_db : Db
unfolding reject_withdrawal ◌+ℤ◌ ◌-ℤ◌
refused_db = elim (reject_withdrawal 42 a_db) [ ok (v, db) ↦ db | err e ↦ a_db ]

refused : reject_withdrawal 42 a_db ≡ ok (tt, refused_db)
unfolding reject_withdrawal ◌+ℤ◌ ◌-ℤ◌
refused = refl

reject_withdrawal_lem_example :
    (refused_db.wallets ≡ a_db.wallets)
    × (refused_db.ledger ≡ a_db.ledger)
    × (refused_db.reservations ≡ a_db.reservations)
reject_withdrawal_lem_example = reject_withdrawal_lem 42 a_db refused_db tt refused

-- 102 kwacha are held for order 30
abbrev held_db : Db
unfolding reserve_funds place_hold sum_active_reservations ◌+ℤ◌ ◌-ℤ◌
held_db = elim (reserve_funds 1 30 (pos 1_020_000) none 0 a_db) [ ok (v, db) ↦ db | err e ↦ a_db ]

held : reserve_funds 1 30 (pos 1_020_000) none 0 a_db ≡ ok (100, held_db)
unfolding reserve_funds place_hold sum_active_reservations ◌+ℤ◌ ◌-ℤ◌
held = refl

reserve_funds_covered_example :
    (sum_active_reservations 10 held_db ≡ sum_active_reservations 10 a_db +ℤ pos 1_020_000)
    × (sum_active_reservations 10 held_db ≤ℤ pos 5_000_000)
unfolding sum_active_reservations ◌+ℤ◌ ◌-ℤ◌
reserve_funds_covered_example =
    reserve_funds_covered ten_thousandths-IsExact 1 30 (pos 1_020_000) none 0 100 a_wallet a_db
      held_db refl refl refl (ground arith) held

a_db-OneHoldPerOrder : OneHoldPerOrder a_db
a_db-OneHoldPerOrder i = omega arith

expire_stale_reservations_lem_example :
    All
      (λ (r : WalletReservation). (is_active r.status ≡ false) ⊎ (100_000_000 ≤ r.expires_at))
      (expire_stale_reservations 100_000_000 held_db).reservations
    × (filter (is_current 100_000_000) (expire_stale_reservations 100_000_000 held_db).reservations
        ≡ filter (is_current 100_000_000) held_db.reservations)
expire_stale_reservations_lem_example = expire_stale_reservations_lem 100_000_000 held_db

reconcile_lem_example :
    (r : Reconciliation) × (reconcile 1 a_db ≡ ok (r, a_db))
    × ((d : ℤ) × (r.discrepancy ≡ d) × (d ≡ pos 0))
unfolding ◌+ℤ◌ ◌-ℤ◌
reconcile_lem_example =
    reconcile_lem ten_thousandths-IsExact 1 a_wallet a_db refl a_db-AllReconciled (omega arith)
