-- ===== src/Trading/Fees.antt =====
-- The fee calculator, src/modules/trading/domain/trading-fee.calculator.ts, and the deposit fee of
-- src/modules/brokers/services/fee-policy.service.ts.
pub mod Sums
pub mod Tiers
use pine_backend.Base.{
  Bool, true, false, not, ◌&&◌, ◌||◌, Option, none, some, List, [], ◌∷◌, if◌then◌else◌, find?,
  get_or,
}
use pine_backend.Decimals.{Decimals, nought, whole, percent}

pub data Side : Type 0 where
  buy sell : Side

pub data DepositFeeKind : Type 0 where
  fixed percentage : DepositFeeKind

module _ ⦃D : Decimals⦄ where
  open D use {
    Decimal, Number, add, sub, mul, div, lt, lte, least, of_number, to_number, literal, num_lt,
    num_gte,
  }

  pub record TradingFees : Type 0 where
    pub broker_commission : Decimal
    pub sec_levy : Decimal
    pub mse_levy : Decimal
    pub withholding_tax : Decimal
    pub total_fees : Decimal
    pub gross_value : Decimal
    pub total_cost : Decimal

  pub record StatutoryLevies : Type 0 where
    pub sec_pct : Number
    pub mse_pct : Number
    pub withholding_pct : Number

  abbrev pub default_statutory_levies : StatutoryLevies
  default_statutory_levies = record {
    sec_pct = literal 1 1;
    mse_pct = literal 1 1;
    withholding_pct = literal 0 0;
  }

  abbrev pct_of : Decimal → Number → Decimal
  pct_of gross pct = mul gross (percent pct)

  pub record CommissionTier : Type 0 where
    pub min_amount : Number
    pub max_amount : Option Number
    pub rate_pct : Number
    pub min_fee : Option Number

  abbrev pub default_tier : CommissionTier
  default_tier = record {
    min_amount = literal 0 0;
    max_amount = none;
    rate_pct = literal 17 1;
    min_fee = some (literal 500 0);
  }

  abbrev pub default_commission_tiers : List CommissionTier
  default_commission_tiers = default_tier ∷ []

  -- `t.maxAmount == null || gross < t.maxAmount`
  abbrev below_max : Number → Option Number → Bool
  below_max gross none = true
  below_max gross (some m) = num_lt gross m

  -- The range of a tier, half open.
  abbrev pub in_tier : Number → CommissionTier → Bool
  in_tier gross t = num_gte gross t.min_amount && below_max gross t.max_amount

  -- `schedule[schedule.length - 1]`
  abbrev pub last_tier : CommissionTier → List CommissionTier → CommissionTier
  last_tier d [] = d
  last_tier d (t ∷ ts) = last_tier t ts

  abbrev pub schedule_of : List CommissionTier → List CommissionTier
  schedule_of [] = default_commission_tiers
  schedule_of (t ∷ ts) = t ∷ ts

  -- the tier found, or else the last
  abbrev pub tier_for : Number → List CommissionTier → CommissionTier
  tier_for gross schedule =
      get_or (find? (in_tier gross) schedule) (last_tier default_tier schedule)

  -- the floor of a tier
  abbrev pub apply_min_fee : Option Number → Decimal → Decimal
  apply_min_fee none commission = commission
  apply_min_fee (some fee) commission =
      if lt commission (of_number fee) then of_number fee else commission

  unfoldable pub commission_for_gross : Decimal → List CommissionTier → Bool → Decimal
  commission_for_gross gross_value tiers enabled =
      let tier = tier_for (to_number gross_value) (schedule_of tiers) in
      if enabled
      then apply_min_fee tier.min_fee (mul gross_value (percent tier.rate_pct))
      else nought

  -- withholding tax on sells only
  abbrev withholding : Side → Decimal → Number → Decimal
  withholding sell gross pct = pct_of gross pct
  withholding buy gross pct = nought

  -- BUY pays the fees on top, SELL receives what they leave
  abbrev cost_of : Side → Decimal → Decimal → Decimal
  cost_of buy gross fees = add gross fees
  cost_of sell gross fees = sub gross fees

  unfoldable pub calculate_trading_fees :
      Decimal → Decimal → Side → List CommissionTier → Bool → StatutoryLevies → TradingFees
  unfolding commission_for_gross
  calculate_trading_fees price quantity side tiers enabled levies =
      let gross = mul price quantity in
      let commission = commission_for_gross gross tiers enabled in
      let sec = pct_of gross levies.sec_pct in
      let mse = pct_of gross levies.mse_pct in
      let tax = withholding side gross levies.withholding_pct in
      let fees = add (add (add commission sec) mse) tax in
      record {
        broker_commission = commission;
        sec_levy = sec;
        mse_levy = mse;
        withholding_tax = tax;
        total_fees = fees;
        gross_value = gross;
        total_cost = cost_of side gross fees;
      }

  -- a broker's schedule, as `forBroker` resolves it
  pub record ResolvedFeePolicy : Type 0 where
    pub commission_enabled : Bool
    pub commission_tiers : List CommissionTier
    pub deposit_fee_enabled : Bool
    pub deposit_fee_kind : DepositFeeKind
    pub deposit_fee_value : Decimal
    pub statutory_levies : StatutoryLevies

  -- The platform defaults, for an investor with no broker or a broker with no schedule.
  abbrev pub default_policy : ResolvedFeePolicy
  default_policy = record {
    commission_enabled = true;
    commission_tiers = default_commission_tiers;
    deposit_fee_enabled = false;
    deposit_fee_kind = percentage;
    deposit_fee_value = nought;
    statutory_levies = default_statutory_levies;
  }

  -- `tradingFeesForUser`, at the policy of the user's broker
  unfoldable pub trading_fees_under : ResolvedFeePolicy → Decimal → Decimal → Side → TradingFees
  unfolding calculate_trading_fees
  trading_fees_under policy price quantity side =
      calculate_trading_fees price quantity side policy.commission_tiers policy.commission_enabled
        policy.statutory_levies

  pub record DepositFeeBreakdown : Type 0 where
    pub gross_amount : Decimal
    pub processing_fee : Decimal
    pub net_amount : Decimal

  abbrev pub processing_fee_of : DepositFeeKind → Decimal → Decimal → Decimal
  processing_fee_of percentage value gross = mul gross (div value (whole 100))
  processing_fee_of fixed value gross = least value gross

  unfoldable pub deposit_breakdown : ResolvedFeePolicy → Decimal → DepositFeeBreakdown
  deposit_breakdown policy gross =
      let fee = processing_fee_of policy.deposit_fee_kind policy.deposit_fee_value gross in
      if not policy.deposit_fee_enabled || lte policy.deposit_fee_value nought
      then record { gross_amount = gross; processing_fee = nought; net_amount = gross }
      else record { gross_amount = gross; processing_fee = fee; net_amount = sub gross fee }
