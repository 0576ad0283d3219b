-- ===== src/Store/Example.antt =====
-- A small database for the tests, in ten-thousandths of a kwacha and of a share.
use pine_backend.Base.{ℕ, some, none, [], ◌∷◌, true, false, pos}
use pine_backend.Decimals.{ten_thousandths}
use pine_backend.Store.Keys.{client, deposit, withdrawal, pending, user_wallet, credit}
use pine_backend.Store.Rows.{
  no_metadata, Db, Wallet, Transaction, LedgerEntry, Order, Stock, Holding, Dividend, ActionStatus,
  DividendStatus, market,
}
use pine_backend.Trading.Lifecycle.{OrderLifecycleStatus, submitted, filled}
use pine_backend.Trading.Fees.{Side, buy, sell}

abbrev pub a_wallet : Wallet
a_wallet = record { id = 10; user_id = 1; balance = pos 5_000_000; is_frozen = false; version = 0 }

abbrev pub an_order : ℕ → Side → OrderLifecycleStatus → ℕ → Order
an_order id side status quantity = record {
  id = id;
  user_id = 1;
  stock_id = 20;
  side = side;
  type = market;
  status = status;
  quantity = pos quantity;
  filled_quantity = pos 0;
  limit_price = none;
  average_fill_price = none;
  total_fees = pos 0;
  total_cost = pos 0;
  idempotency_key = some (client id);
  created_at = 0;
}

abbrev pub a_stock : Stock
a_stock = record { id = 20; symbol = 7; is_active = true; latest_price = some (pos 500_000) }

abbrev pub a_holding : Holding
a_holding = record { user_id = 1; stock_id = 20; quantity = pos 50_000; average_cost = pos 400_000 }

abbrev pub a_deposit : Transaction
a_deposit = record {
  id = 41;
  wallet_id = 10;
  type = deposit;
  status = pending;
  amount = pos 990_000;
  idempotency_key = some (client 41);
  related_order_id = none;
  processing_fee = some (pos 10_000);
  metadata = no_metadata;
}

abbrev pub a_withdrawal : Transaction
a_withdrawal = record {
  id = 42;
  wallet_id = 10;
  type = withdrawal;
  status = pending;
  amount = pos 2_000_000;
  idempotency_key = some (client 42);
  related_order_id = none;
  processing_fee = none;
  metadata = no_metadata;
}

abbrev pub an_entry : LedgerEntry
an_entry = record {
  transaction_id = 40;
  wallet_id = some 10;
  account_type = user_wallet;
  direction = credit;
  amount = pos 5_000_000;
  balance_after = pos 5_000_000;
}

-- two kwacha a share, a tenth of it withheld
abbrev pub a_dividend : Dividend
a_dividend = record {
  id = 90;
  action_id = 80;
  stock_id = 20;
  amount_per_share = pos 20_000;
  withholding_tax_pct = pos 100_000;
  payment_date = 0;
  status = DividendStatus.announced;
}

-- One user with 500 kwacha and five shares, a queued purchase, a filled sale, and a deposit and a
-- withdrawal in flight.
abbrev pub a_db : Db
a_db = record {
  users =
      record {
        id = 1;
        is_customer = true;
        kyc_approved = true;
        broker_id = none;
        is_deleted = false;
      }
      ∷ [];
  brokers = record { id = 70; is_active = true } ∷ [];
  default_broker = some 70;
  stocks = a_stock ∷ [];
  wallets = a_wallet ∷ [];
  reservations = [];
  transactions = a_deposit ∷ a_withdrawal ∷ [];
  ledger = an_entry ∷ [];
  orders = an_order 30 buy submitted 20_000 ∷ an_order 31 sell filled 10_000 ∷ [];
  holdings = a_holding ∷ [];
  trades = [];
  executions = [];
  settlements = [];
  audits = [];
  actions = record { id = 80; stock_id = 20; status = ActionStatus.announced } ∷ [];
  splits = record { action_id = 80; stock_id = 20; ratio_from = 1; ratio_to = 2 } ∷ [];
  bonuses = [];
  dividends = a_dividend ∷ [];
  distributions = [];
  next = 100;
}
