-- ===== src/Trading/Tests/Charged.antt =====
-- The lifecycle's and the fees' theorems at concrete inputs.
use pine_backend.Base.{◌≡◌, refl, some, none, List, [], ◌∷◌, true, not, ◌||◌, pos, ◌⊎◌, ◌≢◌}
use pine_backend.Decimals.{ten_thousandths}
use pine_backend.Trading.Lifecycle.{
  filled, submitted, completed, pending_settlement, settled, can_transition, has, terminal_states,
  active_states,
}
use pine_backend.Trading.Lifecycle.Graph.{
  ◌⟶*◌, here, next_status, has_filled, has_filled-⟶*, reaches_completed, states_partition,
}
use pine_backend.Trading.Fees.{CommissionTier, default_policy, ResolvedFeePolicy}

a_fill_settled : filled ⟶* completed
unfolding can_transition
a_fill_settled =
    next_status filled pending_settlement refl
      (next_status pending_settlement settled refl (next_status settled completed refl here))

has_filled-⟶*_example : has_filled completed ≡ true
has_filled-⟶*_example = has_filled-⟶* a_fill_settled refl

reaches_completed_example :
    (submitted ⟶* completed) ⊎ ((has terminal_states submitted ≡ true) × (submitted ≢ completed))
reaches_completed_example = reaches_completed submitted

states_partition_example :
    has active_states submitted ≡ not (has_filled submitted || has terminal_states submitted)
states_partition_example = states_partition submitted

-- up to 1000 kwacha at 2%, and 1% above
abbrev low_tier : CommissionTier
low_tier = record {
  min_amount = pos 0;
  max_amount = some (pos 10_000_000);
  rate_pct = pos 20_000;
  min_fee = some (pos 50_000);
}

abbrev high_tier : CommissionTier
high_tier = record {
  min_amount = pos 10_000_000;
  max_amount = none;
  rate_pct = pos 10_000;
  min_fee = none;
}

abbrev two_tiers : List CommissionTier
two_tiers = low_tier ∷ high_tier ∷ []

abbrev two_percent : ResolvedFeePolicy
two_percent = record default_policy { deposit_fee_enabled = true; deposit_fee_value = pos 20_000 }
