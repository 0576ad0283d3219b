-- ===== src/Store/Errors.antt =====
-- The exceptions of the services, by what they say.
use pine_backend.Base.{Bool, true, false}

pub data Error : Type 0 where
  -- Prisma: P2025, P2034, P2002
  record_not_found write_conflict unique_violation : Error
  wallet_not_found wallet_frozen insufficient_funds order_not_found stock_not_found : Error
  stock_unavailable no_price kyc_required quantity_too_small value_too_large bad_limit_price : Error
  no_shares shares_reserved not_enough_shares concentration_exceeded : Error
  single_order_limit daily_limit velocity_limit : Error
  not_cancellable invalid_transition not_queued proceeds_too_small : Error
  amount_not_positive already_processed withdrawal_not_found deposit_refused : Error
  payment_not_found no_card_session gateway_unavailable payment_completed payment_failed : Error
  payment_not_awaited card_number_invalid card_expired test_not_available : Error
  sell_not_covered broker_required broker_unavailable order_not_processed : Error

-- `isRetryable`: the codes P2034 and P2025
abbrev pub is_retryable : Error → Bool
is_retryable record_not_found = true
is_retryable write_conflict = true
is_retryable _ = false
