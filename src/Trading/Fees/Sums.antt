-- ===== src/Trading/Fees/Sums.antt =====
-- What the parts of a fee breakdown add up to, for trades and for deposits.
use pine_backend.Base.{
  ◌≡◌, refl, ap, ◌∙◌, ◌⊎◌, true, false, not, ◌||◌, Option, none, some, List, arith, pos, ◌+ℤ◌, ◌-ℤ◌,
  ◌≤ℤ◌, int_laws, Bool-cases, inl, inr,
}
use pine_backend.Decimals.{Decimals, IsExact, Fits, nought, percent}
use pine_backend.Trading.Fees.{
  Side, buy, sell, TradingFees, CommissionTier, commission_for_gross, tier_for, schedule_of,
  apply_min_fee, ResolvedFeePolicy, deposit_breakdown, trading_fees_under,
}

module _ ⦃D : Decimals⦄ (E : IsExact) where
  open D use {Decimal, Number, to_number, of_number, mul, add, sub, lt, lte}
  open E use {units, capacity, units_add, units_sub, units_nought, lt_units, lte_units, units_least}

  -- The running sums of a breakdown are below the precision.
  pub record SumsFit (f : TradingFees) : Type 0 where
    pub one : Fits capacity (units f.broker_commission +ℤ units f.sec_levy)
    pub two : Fits capacity (units f.broker_commission +ℤ units f.sec_levy +ℤ units f.mse_levy)
    pub three : Fits capacity (
        units f.broker_commission
        +ℤ units f.sec_levy
        +ℤ units f.mse_levy
        +ℤ units f.withholding_tax)
    pub paid : Fits capacity (units f.gross_value +ℤ units f.total_fees)
    pub received : Fits capacity (units f.gross_value -ℤ units f.total_fees)

  add_three :
      (a b c : Decimal)
      → Fits capacity (units a +ℤ units b)
      → Fits capacity (units a +ℤ units b +ℤ units c)
      → units (add (add a b) c) ≡ units a +ℤ units b +ℤ units c
  add_three a b c h k =
      let e = units_add a b h in units_add (add a b) c (rw e k) ∙ ap (λ t. t +ℤ units c) e

  add_four :
      (a b c d : Decimal)
      → Fits capacity (units a +ℤ units b)
      → Fits capacity (units a +ℤ units b +ℤ units c)
      → Fits capacity (units a +ℤ units b +ℤ units c +ℤ units d)
      → units (add (add (add a b) c) d) ≡ units a +ℤ units b +ℤ units c +ℤ units d
  add_four a b c d h k l =
      let e = add_three a b c h k in
      units_add (add (add a b) c) d (rw e l) ∙ ap (λ t. t +ℤ units d) e

  module _ (price quantity : Decimal) (policy : ResolvedFeePolicy) where
    pub total_fees_sum :
        (side : Side)
        → let f = trading_fees_under policy price quantity side in
          SumsFit f
          → units f.total_fees
            ≡ units f.broker_commission
              +ℤ units f.sec_levy
              +ℤ units f.mse_levy
              +ℤ units f.withholding_tax
    unfolding trading_fees_under
    total_fees_sum side h = add_four _ _ _ _ h.one h.two h.three

    -- A buyer pays the gross value, the commission and the two levies, where the sums are below the
    -- precision, and no withholding tax.
    pub buy_cost :
        let f = trading_fees_under policy price quantity buy in
        SumsFit f
        → (units f.total_cost
            ≡ units f.gross_value
              +ℤ (units f.broker_commission +ℤ units f.sec_levy +ℤ units f.mse_levy))
          × (units f.withholding_tax ≡ pos 0)
    unfolding trading_fees_under
    buy_cost h = (
      units_add _ _ h.paid
          ∙ ap (λ t. units (mul price quantity) +ℤ t)
              (total_fees_sum buy h ∙ rw units_nought (omega int_laws)),
      units_nought,
    )

    -- A seller receives the gross value less the commission, the two levies and the withholding tax,
    -- where the sums are below the precision.
    pub sell_cost :
        let f = trading_fees_under policy price quantity sell in
        SumsFit f
        → units f.total_cost
          ≡ units f.gross_value
            -ℤ (units f.broker_commission
                +ℤ units f.sec_levy
                +ℤ units f.mse_levy
                +ℤ units f.withholding_tax)
    unfolding trading_fees_under
    sell_cost h =
        units_sub _ _ h.received ∙ ap (λ t. units (mul price quantity) -ℤ t) (total_fees_sum sell h)

  -- How a floor bounds a commission.
  abbrev pub IsFloored : Option Number → Decimal → Decimal → Type 0
  IsFloored none share c = c ≡ share
  IsFloored (some fee) share c =
      (units (of_number fee) ≤ℤ units c)
      × (units share ≤ℤ units c)
      × ((c ≡ share) ⊎ (c ≡ of_number fee))

  apply_min_fee-IsFloored :
      (fee : Option Number) (share : Decimal) → IsFloored fee share (apply_min_fee fee share)
  apply_min_fee-IsFloored none share = refl
  apply_min_fee-IsFloored (some fee) share = elim (Bool-cases (lt share (of_number fee))) [
    | inl low ↦ rw low (ground (arith, lt_units share (of_number fee)))
    | inr high ↦ rw high (ground (arith, lt_units share (of_number fee)))
  ]

  -- An enabled schedule charges the tier's percentage of the gross value: exactly that where the
  -- tier has no floor, and the greater of the two where it has one. A disabled one charges nothing.
  pub commission_lem :
      (gross : Decimal) (tiers : List CommissionTier)
      → let tier = tier_for (to_number gross) (schedule_of tiers) in
        IsFloored tier.min_fee
          (mul gross (percent tier.rate_pct))
          (commission_for_gross gross tiers true)
        × (commission_for_gross gross tiers false ≡ nought)
  unfolding commission_for_gross
  commission_lem gross tiers =
      let tier = tier_for (to_number gross) (schedule_of tiers) in
      (apply_min_fee-IsFloored tier.min_fee (mul gross (percent tier.rate_pct)), refl)

  net_sum :
      (gross fee : Decimal)
      → Fits capacity (units gross -ℤ units fee)
      → units (sub gross fee) +ℤ units fee ≡ units gross
  net_sum gross fee h = rw (units_sub gross fee h) (omega int_laws)

  -- The fee and the credit of a deposit add up to what the payer is charged, where that is below
  -- the precision.
  pub deposit_breakdown_sum :
      (policy : ResolvedFeePolicy) (gross : Decimal)
      → let b = deposit_breakdown policy gross in
        Fits capacity (units gross -ℤ units b.processing_fee)
        → (b.gross_amount ≡ gross) × (units b.net_amount +ℤ units b.processing_fee ≡ units gross)
  unfolding deposit_breakdown
  deposit_breakdown_sum policy gross h =
      let value = policy.deposit_fee_value in
      elim (Bool-cases (not policy.deposit_fee_enabled || lte value nought)) [
        | inl free ↦ rw free (refl, rw units_nought (omega int_laws))
        | inr charged ↦ let fits = rw charged at h in rw charged (refl, net_sum gross _ fits)
      ]
