-- ===== src/Dividends.antt =====
-- Dividends, stock splits and bonus issues, src/modules/dividends/services/distribution-engine.service.ts
-- over src/modules/dividends/repositories/corporate-actions.repository.ts. Titles, dates other than
-- the payment's, the events for each holder and the list of error messages are left out.
pub mod Credit
pub mod Due
pub mod Once
pub mod Payout
pub mod Shares
mod Tests
use pine_backend.Base.{
  ℕ, zero, suc, ◌+◌, Bool, true, false, not, ◌&&◌, Option, none, some, List, [], ◌∷◌, ◌++◌, ◌==◌,
  leb, if◌then◌else◌, find?, filter, update_where, Tx, Result, ok, err, Action, transaction, pure,
  gets, modify, throw_if, or_throw, ◌>>=◌, ◌>>◌,
}
use pine_backend.Decimals.{Decimals, nought, whole}
use pine_backend.Store.Keys.{dividend_credit, completed, user_wallet, platform_cash, credit, debit}
use pine_backend.Store.Errors.{Error, record_not_found, unique_violation}
use pine_backend.Store.Rows.{
  no_metadata, Db, Wallet, Holding, LedgerEntry, CorporateAction, ShareRatio, Dividend,
  Distribution, ActionStatus, DividendStatus,
}
use pine_backend.Store.Lookups.{find_wallet_by_user_id, same_version, posted_to}
use pine_backend.Trading.Settlement.{is_some}

abbrev pub is_announced : DividendStatus → Bool
is_announced DividendStatus.announced = true
is_announced _ = false

module _ ⦃D : Decimals⦄ where
  open D use {Decimal, Number, add, sub, mul, div, lte, gt, floor, of_number, store, increment}

  abbrev pub find_dividend_by_id : ℕ → Db → Option Dividend
  find_dividend_by_id id db = find? (λ (d : Dividend). d.id == id) db.dividends

  abbrev pub update_dividend_status : ℕ → DividendStatus → Db → Db
  update_dividend_status id status db = record db {
    dividends =
        update_where (λ (d : Dividend). d.id == id) (λ (d : Dividend). record d { status = status })
          db.dividends;
  }

  abbrev pub update_corporate_action_status : ℕ → ActionStatus → Db → Db
  update_corporate_action_status id status db = record db {
    actions =
        update_where (λ (a : CorporateAction). a.id == id)
          (λ (a : CorporateAction). record a { status = status }) db.actions;
  }

  abbrev pub find_shareholders_by_stock : ℕ → Db → List Holding
  find_shareholders_by_stock stock_id db =
      filter (λ (h : Holding). h.stock_id == stock_id && gt h.quantity nought) db.holdings

  abbrev pub gross_of : Dividend → Holding → Decimal
  gross_of d h = mul h.quantity d.amount_per_share

  abbrev pub tax_of : Dividend → Holding → Decimal
  tax_of d h = mul (gross_of d h) (div d.withholding_tax_pct (whole 100))

  abbrev pub net_of : Dividend → Holding → Decimal
  net_of d h = sub (gross_of d h) (tax_of d h)

  abbrev pub is_distribution : ℕ → ℕ → Distribution → Bool
  is_distribution dividend_id user_id r = r.dividend_id == dividend_id && r.user_id == user_id

  -- `createDistribution`, unique on the dividend and the user
  unfoldable pub create_distribution : Dividend → Holding → Tx Error Db (Unit {0})
  create_distribution d h = do
    taken ← gets (λ (db : Db). find? (is_distribution d.id h.user_id) db.distributions)
    throw_if (is_some taken) unique_violation
    modify λ (db : Db). record db {
      distributions =
          db.distributions
          ++ (record {
            dividend_id = d.id;
            user_id = h.user_id;
            quantity_held = store h.quantity;
            gross_amount = store (gross_of d h);
            tax_withheld = store (tax_of d h);
            net_amount = store (net_of d h);
          }
              ∷ []);
    }

  -- the wallet's entry, and the platform's against it
  abbrev pub dividend_entries : ℕ → Dividend → Holding → Wallet → List LedgerEntry
  dividend_entries id d h w =
      record {
        transaction_id = id;
        wallet_id = some w.id;
        account_type = user_wallet;
        direction = credit;
        amount = store (net_of d h);
        balance_after = store (add w.balance (net_of d h));
      }
      ∷ record {
        transaction_id = id;
        wallet_id = none;
        account_type = platform_cash;
        direction = debit;
        amount = store (net_of d h);
        balance_after = store nought;
      }
      ∷ []

  abbrev credit_wallet : Dividend → Holding → Wallet → Tx Error Db (Unit {0})
  credit_wallet d h w = do
    id ← gets (λ (db : Db). db.next)
    modify λ (db : Db). record db {
      transactions =
          db.transactions
          ++ (record {
            id = id;
            wallet_id = w.id;
            type = dividend_credit;
            status = completed;
            amount = store (net_of d h);
            idempotency_key = none;
            related_order_id = none;
            processing_fee = none;
            metadata = no_metadata;
          }
              ∷ []);
      ledger = db.ledger ++ dividend_entries id d h w;
      next = suc db.next;
    }
    or_throw (← gets (λ (db : Db). find? (same_version w) db.wallets)) record_not_found
    modify λ (db : Db). record db {
      wallets =
          update_where (same_version w) (posted_to (λ b. increment b (net_of d h))) db.wallets;
    }

  abbrev credit_if_any : Dividend → Holding → Option Wallet → Tx Error Db (Unit {0})
  credit_if_any d h none = pure tt
  credit_if_any d h (some w) = credit_wallet d h w

  -- the statements of the callback that run on its client; a holder with no wallet is skipped
  unfoldable pub credit_holder : Dividend → Holding → Tx Error Db (Unit {0})
  credit_holder d h = do w ← gets (find_wallet_by_user_id h.user_id); credit_if_any d h w

  abbrev after_record :
      Dividend → Holding → Result Error (Unit {0} × Db) → Action Error Db (Unit {0})
  after_record d h (err e) db = (err e, db)
  after_record d h (ok (u, db1)) db = transaction (credit_holder d h) db1

  -- One holder: the record of the distribution is written on a client of its own, and stays where the
  -- credit fails.
  unfoldable pub pay_holder : Dividend → Holding → Action Error Db (Unit {0})
  unfolding create_distribution credit_holder
  pay_holder d h db = after_record d h (create_distribution d h db) db

  pub record Totals : Type 0 where
    pub distributed : ℕ
    pub total_paid : Decimal
    pub total_tax : Decimal

  abbrev counted : Dividend → Holding → Result Error (Unit {0}) → Totals → Totals
  counted d h (err e) t = t
  counted d h (ok u) t = record {
    distributed = t.distributed + 1;
    total_paid = add t.total_paid (net_of d h);
    total_tax = add t.total_tax (tax_of d h);
  }

  -- the loop over the shareholders: an error is logged, and the next one follows
  pub pay_all : Dividend → List Holding → Totals → Db → Totals × Db
  pay_all d [] t db = (t, db)
  pay_all d (h ∷ hs) t db = let (r, db1) = pay_holder d h db in pay_all d hs (counted d h r t) db1

  abbrev pub no_totals : Totals
  no_totals = record { distributed = 0; total_paid = nought; total_tax = nought }

  abbrev pub start_dividend : Dividend → Db → Db
  start_dividend d db =
      update_corporate_action_status d.action_id ActionStatus.processing
        (update_dividend_status d.id DividendStatus.processing db)

  abbrev pub finish_dividend : Dividend → Db → Db
  finish_dividend d db =
      update_corporate_action_status d.action_id ActionStatus.completed
        (update_dividend_status d.id DividendStatus.credited db)

  -- `distributeDividend`
  unfoldable pub distribute_dividend : ℕ → Action Error Db Totals
  unfolding pay_all
  distribute_dividend dividend_id db = elim (find_dividend_by_id dividend_id db) [
    | none ↦ (err record_not_found, db)
    | some d ↦
        let db1 = start_dividend d db in
        let (t, db2) = pay_all d (find_shareholders_by_stock d.stock_id db1) no_totals db1 in
        (ok t, finish_dividend d db2)
  ]

  abbrev pub find_dividends_due : ℕ → Db → List Dividend
  find_dividends_due now db =
      filter (λ (d : Dividend). leb d.payment_date now && is_announced d.status) db.dividends

  -- the loop of `processDueDividends`
  pub distribute_each : List Dividend → Db → Db
  distribute_each [] db = db
  distribute_each (d ∷ ds) db = let (r, db1) = distribute_dividend d.id db in distribute_each ds db1

  -- `processDueDividends`, the cron job
  unfoldable pub process_due_dividends : ℕ → Db → Db
  unfolding distribute_each
  process_due_dividends now db = distribute_each (find_dividends_due now db) db

  -- `updateMany` on a position
  abbrev set_position : ℕ → ℕ → (Holding → Holding) → Db → Db
  set_position user_id stock_id f db = record db {
    holdings =
        update_where (λ (h : Holding). h.user_id == user_id && h.stock_id == stock_id) f
          db.holdings;
  }

  -- a split multiplies the shares and divides their cost
  abbrev pub split_holding : ShareRatio → Holding → Holding
  split_holding s h =
      let multiplier = div (whole s.ratio_to) (whole s.ratio_from) in
      record h {
        quantity = store (mul h.quantity multiplier);
        average_cost = store (div h.average_cost multiplier);
      }

  pub split_all : ShareRatio → List Holding → Db → Db
  split_all s [] db = db
  split_all s (h ∷ hs) db = split_all s hs (
      set_position h.user_id s.stock_id
        (λ (g : Holding). record g {
          quantity = (split_holding s h).quantity;
          average_cost = (split_holding s h).average_cost;
        })
        db)

  -- `applyStockSplit`
  unfoldable pub apply_stock_split : ℕ → Action Error Db (Unit {0})
  unfolding split_all
  apply_stock_split action_id db =
      elim (find? (λ (s : ShareRatio). s.action_id == action_id) db.splits) [
        | none ↦ (err record_not_found, db)
        | some s ↦
            let db1 = update_corporate_action_status action_id ActionStatus.processing db in
            let db2 = split_all s (find_shareholders_by_stock s.stock_id db1) db1 in
            (ok tt, update_corporate_action_status action_id ActionStatus.completed db2)
      ]

  -- whole shares only
  abbrev pub bonus_shares : ShareRatio → Holding → Decimal
  bonus_shares s h = floor (mul (div h.quantity (whole s.ratio_from)) (whole s.ratio_to))

  -- the cost of the position stays
  abbrev pub bonus_holding : ShareRatio → Holding → Holding
  bonus_holding s h =
      let quantity = add h.quantity (bonus_shares s h) in
      record h {
        quantity = store quantity;
        average_cost = store (div (mul h.average_cost h.quantity) quantity);
      }

  pub bonus_all : ShareRatio → List Holding → Decimal → Db → Decimal × Db
  bonus_all s [] total db = (total, db)
  bonus_all s (h ∷ hs) total db =
      let paid = bonus_all s hs (add total (bonus_shares s h)) (
        set_position h.user_id s.stock_id
          (λ (g : Holding). record g {
            quantity = (bonus_holding s h).quantity;
            average_cost = (bonus_holding s h).average_cost;
          })
          db) in
      let skipped = bonus_all s hs total db in
      if lte (bonus_shares s h) nought then skipped else paid

  -- `distributeBonusShares`
  unfoldable pub distribute_bonus_shares : ℕ → Action Error Db Decimal
  unfolding bonus_all
  distribute_bonus_shares action_id db =
      elim (find? (λ (s : ShareRatio). s.action_id == action_id) db.bonuses) [
        | none ↦ (err record_not_found, db)
        | some s ↦
            let db1 = update_corporate_action_status action_id ActionStatus.processing db in
            let (total, db2) = bonus_all s (find_shareholders_by_stock s.stock_id db1) nought db1 in
            (ok total, update_corporate_action_status action_id ActionStatus.completed db2)
      ]
