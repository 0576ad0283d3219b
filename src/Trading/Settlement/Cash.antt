-- ===== src/Trading/Settlement/Cash.antt =====
-- Settlement and the ledger: what a settlement writes to a wallet's ledger is what the balance moves by.
use pine_backend.Base.{
  ℕ, ◌≡◌, false, List, map, ◌≢◌, pos, ◌+ℤ◌, ◌-ℤ◌, ◌≤ℤ◌, int_laws, arith, if◌then◌else◌, some, ok,
  ltb_ℤ,
}
use pine_backend.Decimals.{Decimals, IsExact, Fits, nought}
use pine_backend.Store.Keys.{is_credit}
use pine_backend.Store.Rows.{Db, Wallet, LedgerEntry}
use pine_backend.Store.Lookups.{find_wallet_by_user_id}
use pine_backend.Trading.Fees.{Side, buy, sell}
use pine_backend.Trading.Settlement.{
  OrderExecutedEvent, settle_atomically, moved_balance, entry_of, legs_of, cash_delta,
  wallet_direction, overdrawn,
}
use pine_backend.Trading.Settlement.Effects.{settle-IsPosted}
use pine_backend.Wallet.Ledger.{ledger_units}
use pine_backend.Wallet.Posting.{
  UniqueWallets, AllReconciled, IsPosting, IsPostedIn, posted-AllReconciled,
}

module _ ⦃D : Decimals⦄ (E : IsExact) where
  open D use {Decimal, store}
  open E use {
    units, capacity, units_sub, units_nought, lt_units, units_increment, units_decrement,
    store_increment, store_decrement,
  }

  -- The amounts of an event against a wallet: in whole columns, below the precision, and no sale
  -- whose fees exceed its value.
  abbrev pub MoveFits : OrderExecutedEvent → Side → Wallet → Type 0
  MoveFits e buy w = Fits capacity (units w.balance -ℤ units (cash_delta e buy))
  MoveFits e sell w =
      Fits capacity (units w.balance +ℤ units (cash_delta e sell))
      × (pos 0 ≤ℤ units (cash_delta e sell))

  pub record IsSettleable (e : OrderExecutedEvent) (w : Wallet) : Type 0 where
    pub whole_columns : store (cash_delta e e.side) ≡ cash_delta e e.side
    pub fits : MoveFits e e.side w

  pub not_overdrawn :
      (b c : Decimal)
      → Fits capacity (units b -ℤ units c)
      → D.lt (D.sub b c) nought ≡ false
      → pos 0 ≤ℤ units b -ℤ units c
  not_overdrawn b c fits solvent =
      let test : ltb_ℤ (units b -ℤ units c) (pos 0) ≡ false =
        rw (lt_units (D.sub b c) nought, units_sub b c fits, units_nought) at solvent in
      ground arith

  module _ (e : OrderExecutedEvent) (w : Wallet) (id : ℕ) where
    abbrev entries : Side → List LedgerEntry
    entries side = map (entry_of id) (legs_of e side w)

    entries_others : (side : Side) (i : ℕ) → i ≢ w.id → ledger_units E i (entries side) ≡ pos 0
    entries_others buy i h = grind int_laws
    entries_others sell i h = grind int_laws

    entries_own :
        (side : Side)
        → store (cash_delta e side) ≡ cash_delta e side
        → ledger_units E w.id (entries side) ≡ (
            if is_credit (wallet_direction side)
            then units (cash_delta e side)
            else pos 0 -ℤ units (cash_delta e side))
    entries_own buy h = rw h (grind int_laws)
    entries_own sell h = rw h (grind int_laws)

    solvent-IsPosting :
        (side : Side)
        → store w.balance ≡ w.balance
        → store (cash_delta e side) ≡ cash_delta e side
        → pos 0 ≤ℤ units w.balance
        → MoveFits e side w
        → overdrawn e side w ≡ false
        → IsPosting E w (moved_balance e side) (entries side)
    solvent-IsPosting buy own amount rich fits solvent =
        let moved = units_decrement w.balance (cash_delta e buy) own amount fits in
        record {
          stored = store_decrement w.balance (cash_delta e buy);
          moved = rw (moved, entries_own buy amount) (omega int_laws);
          solvent = rw moved (not_overdrawn w.balance (cash_delta e buy) fits solvent);
          others = entries_others buy;
        }
    solvent-IsPosting sell own amount rich fits solvent =
        let moved = units_increment w.balance (cash_delta e sell) own amount fits.0 in
        record {
          stored = store_increment w.balance (cash_delta e sell);
          moved = rw (moved, entries_own sell amount);
          solvent = rw moved (omega int_laws);
          others = entries_others sell;
        }

  pub settle-IsPostedIn :
      (e : OrderExecutedEvent) (db db' : Db) (id : ℕ)
      → ((w : Wallet) → find_wallet_by_user_id e.user_id db ≡ some w → IsSettleable e w)
      → settle_atomically e db ≡ ok (some id, db')
      → AllReconciled E db
      → IsPostedIn E db db'
  settle-IsPostedIn e db db' id fits h all =
      let (w, found, fresh, posted) = settle-IsPosted e db db' id h in
      let before = all e.user_id w found in
      let settleable = fits w found in
      record {
        user = e.user_id;
        wallet = w;
        move = moved_balance e e.side;
        entries = entries e w db.next e.side;
        posting =
            solvent-IsPosting e w db.next e.side before.stored settleable.whole_columns
              before.solvent settleable.fits posted.solvent;
        found = found;
        wallets = posted.wallets;
        ledger = posted.ledger;
      }

  -- A settlement keeps every wallet of the database in agreement with its ledger and not overdrawn,
  -- where the wallet ids are unique, the amounts are in whole columns and below the precision, and the
  -- fees of a sale do not exceed its value.
  pub settle-AllReconciled :
      (e : OrderExecutedEvent) (db db' : Db) (id : ℕ)
      → UniqueWallets db
      → ((w : Wallet) → find_wallet_by_user_id e.user_id db ≡ some w → IsSettleable e w)
      → settle_atomically e db ≡ ok (some id, db')
      → AllReconciled E db
      → AllReconciled E db'
  settle-AllReconciled e db db' id unique fits h all =
      posted-AllReconciled E db db' (settle-IsPostedIn e db db' id fits h all) unique all
