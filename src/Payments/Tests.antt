-- ===== src/Payments/Tests.antt =====
-- The theorems on payments at concrete inputs: a hosted session of 100 kwacha under the key 41.
use pine_backend.Base.{
  subst, sym, ℕ, ◌+◌, ◌≤◌, ◌≡◌, refl, ◌⊎◌, Bool, true, false, some, [], ◌∷◌, ◌++◌, ℤ, pos, length,
  arith,
}
use pine_backend.Decimals.{ten_thousandths, ten_thousandths-IsExact}
use pine_backend.Store.Keys.{client}
use pine_backend.Store.Rows.{Db, Wallet, Transaction, no_metadata}
use pine_backend.Store.Lookups.{find_wallet_by_id, find_transaction_by_id}
use pine_backend.Store.Example.{a_db, a_deposit, a_withdrawal}
use pine_backend.Trading.Fees.{default_policy}
use pine_backend.Wallet.Posting.{AllReconciled}
use pine_backend.Wallet.Tests.{
  a_db-UniqueWallets, a_db-OneWalletPerUser, a_db-AllReconciled, a_deposit-IsCreditable,
}
use pine_backend.Wallet.Transfers.Cash.{IsCreditable}
use pine_backend.Payments.Deposits.{find_pending_deposit, process_payment}
use pine_backend.Payments.Deposits.Credits.{process_payment-AllReconciled}
use pine_backend.Payments.Gateway.{AuthResponse, authentication_successful, proceed}
use pine_backend.Payments.Card.{World, Gateway, complete_session_payment}
use pine_backend.Payments.Card.Settled.{IsOneDeposit}
use pine_backend.Payments.Card.Capture.{complete_all, complete_all-charges_once}
use pine_backend.Payments.Card.Backed.{IsBacked, complete_session_payment-IsBacked}
use pine_backend.Payments.Luhn.{luhn_valid, luhn_valid-one_digit}

abbrev unblocked : ℕ → ℕ → ℤ → Db → Bool
unblocked u s g db = false

abbrev hosted_deposit : Transaction
hosted_deposit = record a_deposit {
  metadata = record no_metadata {
    gross_amount = some (pos 1_000_000);
    gateway_session_id = some 5;
    three_ds_auth_transaction_id = some 6;
  };
}

abbrev hosted_world : World
hosted_world = record {
  db = record a_db { transactions = hosted_deposit ∷ a_withdrawal ∷ [] };
  charges = [];
}

abbrev good_answer : AuthResponse
good_answer = record {
  has_version = true;
  status = some authentication_successful;
  recommendation = some proceed;
  redirect_html = false;
}

abbrev a_gateway : Gateway
a_gateway = record {
  require_3ds = some true;
  new_session = some 5;
  enrolment = some good_answer;
  authentication = some good_answer;
  verification = some good_answer;
  authentication_id = 6;
  takes = λ c. true;
}

payment-IsCreditable :
    (p t : Transaction) (w : Wallet)
    → find_pending_deposit (client 41) a_db ≡ some p
    → find_transaction_by_id p.id a_db ≡ some t
    → find_wallet_by_id t.wallet_id a_db ≡ some w
    → IsCreditable ten_thousandths-IsExact t w
payment-IsCreditable p t w found row wallet =
    let same : a_deposit ≡ p = cc in
    a_deposit-IsCreditable t w
      (subst (λ x. find_transaction_by_id x.id a_db ≡ some t) (sym same) row) wallet

process_payment-AllReconciled_example :
    AllReconciled ten_thousandths-IsExact
      (process_payment default_policy unblocked true 0 0 41 a_db).1
process_payment-AllReconciled_example =
    process_payment-AllReconciled ten_thousandths-IsExact default_policy unblocked true 0 0 41 a_db
      a_db-UniqueWallets a_db-OneWalletPerUser payment-IsCreditable a_db-AllReconciled

hosted_world-IsOneDeposit : IsOneDeposit (client 41) 41 hosted_world.db.transactions
hosted_world-IsOneDeposit = ((λ u. (refl, refl)), ((λ u. cc), tt))

complete_all-charges_once_example :
    length
      (complete_all default_policy unblocked true 0 0 41
        (record { user_id = 1; gateway = a_gateway }
          ∷ record { user_id = 1; gateway = a_gateway }
          ∷ [])
        hosted_world).charges
    ≤ 0 + 1
complete_all-charges_once_example =
    complete_all-charges_once default_policy unblocked true 0 0 41 41
      (record { user_id = 1; gateway = a_gateway }
        ∷ record { user_id = 1; gateway = a_gateway }
        ∷ [])
      hosted_world hosted_world-IsOneDeposit

complete_session_payment-IsBacked_example :
    ((complete_session_payment default_policy unblocked true 0 0 a_gateway 1 41
        hosted_world).1.charges
      ≡ [])
    ⊎ IsBacked a_gateway 1 41 hosted_world
        (complete_session_payment default_policy unblocked true 0 0 a_gateway 1 41 hosted_world).1
complete_session_payment-IsBacked_example =
    complete_session_payment-IsBacked default_policy unblocked true 0 0 a_gateway 1 41 hosted_world

-- 79927398713, and with its seventh digit mistyped
card_is_valid : luhn_valid (55 ∷ 57 ∷ 57 ∷ 50 ∷ 55 ∷ 51 ∷ 57 ∷ 56 ∷ 55 ∷ 49 ∷ 51 ∷ []) ≡ true
unfolding luhn_valid
card_is_valid = refl

luhn_valid-one_digit_example :
    luhn_valid ((55 ∷ 57 ∷ 57 ∷ 50 ∷ 55 ∷ 51 ∷ []) ++ 56 ∷ 56 ∷ 55 ∷ 49 ∷ 51 ∷ []) ≡ false
luhn_valid-one_digit_example =
    luhn_valid-one_digit (55 ∷ 57 ∷ 57 ∷ 50 ∷ 55 ∷ 51 ∷ []) (56 ∷ 55 ∷ 49 ∷ 51 ∷ []) 57 56
      (omega arith, omega arith) (omega arith, omega arith) (λ e. ground arith) card_is_valid
