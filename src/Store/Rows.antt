-- ===== src/Store/Rows.antt =====
-- The rows of the tables, and the database.
use pine_backend.Base.{ℕ, Bool, Option, List, none, false}
use pine_backend.Decimals.{Decimals}
use pine_backend.Trading.Lifecycle.{OrderLifecycleStatus}
use pine_backend.Trading.Fees.{Side}
use pine_backend.Store.Keys.{
  Key, ReservationStatus, TransactionType, TransactionStatus, LedgerAccount, Direction,
}

pub data OrderType : Type 0 where
  market limit : OrderType

pub data AuditAction : Type 0 where
  order_created order_cancelled order_validated risk_check_passed funds_reserved : AuditAction
  order_queued_for_broker order_rejected order_executed_by_broker : AuditAction
  order_submitted_to_broker order_rejected_by_broker order_filled : AuditAction
  order_partially_filled trade_settled : AuditAction

pub record TradeAudit : Type 0 where
  pub order_id : ℕ
  pub user_id : ℕ
  pub action : AuditAction
  pub from_status : Option OrderLifecycleStatus
  pub to_status : Option OrderLifecycleStatus

pub record SettlementRecord : Type 0 where
  pub id : ℕ
  pub trade_id : ℕ

pub data ActionStatus : Type 0 where
  announced pending processing completed cancelled : ActionStatus

pub data DividendStatus : Type 0 where
  announced processing credited reinvested failed : DividendStatus

pub record CorporateAction : Type 0 where
  pub id : ℕ
  pub stock_id : ℕ
  pub status : ActionStatus

-- a stock split, or a bonus issue
pub record ShareRatio : Type 0 where
  pub action_id : ℕ
  pub stock_id : ℕ
  pub ratio_from : ℕ
  pub ratio_to : ℕ

pub record User : Type 0 where
  pub id : ℕ
  pub is_customer : Bool
  pub kyc_approved : Bool
  pub broker_id : Option ℕ
  pub is_deleted : Bool

pub record Broker : Type 0 where
  pub id : ℕ
  pub is_active : Bool

module _ ⦃D : Decimals⦄ where
  open D use {Decimal, Number}

  pub record Wallet : Type 0 where
    pub id : ℕ
    pub user_id : ℕ
    pub balance : Decimal
    pub is_frozen : Bool
    pub version : ℕ

  pub record WalletReservation : Type 0 where
    pub id : ℕ
    pub wallet_id : ℕ
    pub order_id : ℕ
    pub amount : Decimal
    pub status : ReservationStatus
    pub expires_at : ℕ

  -- what a payment leaves in `metadata`, besides the breakdown of its fee
  pub record Metadata : Type 0 where
    -- `purpose === 'BUY_SHARES'`
    pub is_purchase : Bool
    pub stock_symbol : Option ℕ
    pub quantity : Option Number
    pub gross_amount : Option Decimal
    pub gateway_session_id : Option ℕ
    pub three_ds_auth_transaction_id : Option ℕ

  abbrev pub no_metadata : Metadata
  no_metadata = record {
    is_purchase = false;
    stock_symbol = none;
    quantity = none;
    gross_amount = none;
    gateway_session_id = none;
    three_ds_auth_transaction_id = none;
  }

  pub record Transaction : Type 0 where
    pub id : ℕ
    pub wallet_id : ℕ
    pub type : TransactionType
    pub status : TransactionStatus
    pub amount : Decimal
    pub idempotency_key : Option Key
    pub related_order_id : Option ℕ
    -- `metadata.processingFee`
    pub processing_fee : Option Decimal
    pub metadata : Metadata

  pub record LedgerEntry : Type 0 where
    pub transaction_id : ℕ
    pub wallet_id : Option ℕ
    pub account_type : LedgerAccount
    pub direction : Direction
    pub amount : Decimal
    pub balance_after : Decimal

  pub record Order : Type 0 where
    pub id : ℕ
    pub user_id : ℕ
    pub stock_id : ℕ
    pub side : Side
    pub type : OrderType
    pub status : OrderLifecycleStatus
    pub quantity : Decimal
    pub filled_quantity : Decimal
    pub limit_price : Option Decimal
    pub average_fill_price : Option Decimal
    pub total_fees : Decimal
    pub total_cost : Decimal
    pub idempotency_key : Option Key
    pub created_at : ℕ

  pub record Stock : Type 0 where
    pub id : ℕ
    pub symbol : ℕ
    pub is_active : Bool
    -- `prices[0]?.closePrice`, the latest
    pub latest_price : Option Decimal

  pub record Holding : Type 0 where
    pub user_id : ℕ
    pub stock_id : ℕ
    pub quantity : Decimal
    pub average_cost : Decimal

  pub record Trade : Type 0 where
    pub id : ℕ
    pub order_id : ℕ
    pub quantity : Decimal
    pub price : Decimal
    pub fee : Decimal
    pub commission : Decimal
    pub levies : Decimal
    pub platform_fee : Decimal

  pub record OrderExecution : Type 0 where
    pub order_id : ℕ
    pub quantity : Decimal
    pub price : Decimal
    pub fee : Decimal

  pub record Dividend : Type 0 where
    pub id : ℕ
    pub action_id : ℕ
    pub stock_id : ℕ
    pub amount_per_share : Decimal
    pub withholding_tax_pct : Decimal
    pub payment_date : ℕ
    pub status : DividendStatus

  pub record Distribution : Type 0 where
    pub dividend_id : ℕ
    pub user_id : ℕ
    pub quantity_held : Decimal
    pub gross_amount : Decimal
    pub tax_withheld : Decimal
    pub net_amount : Decimal

  pub record Db : Type 0 where
    pub users : List User
    pub brokers : List Broker
    -- `PlatformConfig.defaultBrokerId`
    pub default_broker : Option ℕ
    pub stocks : List Stock
    pub wallets : List Wallet
    pub reservations : List WalletReservation
    pub transactions : List Transaction
    pub ledger : List LedgerEntry
    pub orders : List Order
    pub holdings : List Holding
    pub trades : List Trade
    pub executions : List OrderExecution
    pub settlements : List SettlementRecord
    pub audits : List TradeAudit
    pub actions : List CorporateAction
    pub splits : List ShareRatio
    pub bonuses : List ShareRatio
    pub dividends : List Dividend
    pub distributions : List Distribution
    -- ids from here on are unused
    pub next : ℕ
