-- ===== src/Payments/Gateway.antt =====
-- What src/modules/mastercard-gateway/services/mastercard-gateway.service.ts makes of the gateway's
-- answers. Sending the requests is left out: an answer is an argument.
use pine_backend.Base.{Bool, true, false, not, ◌&&◌, Option, none, some, if◌then◌else◌}

-- `transaction.authenticationStatus`, by the values that the code tests
pub data AuthenticationStatus : Type 0 where
  authentication_successful authentication_available : AuthenticationStatus
  authentication_not_supported other_status : AuthenticationStatus

pub data Recommendation : Type 0 where
  proceed do_not_proceed : Recommendation

abbrev refuses : Option Recommendation → Bool
refuses (some do_not_proceed) = true
refuses _ = false

abbrev is_successful : Option AuthenticationStatus → Bool
is_successful (some authentication_successful) = true
is_successful _ = false

abbrev is_available : Option AuthenticationStatus → Bool
is_available (some authentication_available) = true
is_available _ = false

-- `status === 'AUTHENTICATION_NOT_SUPPORTED' || !status`
abbrev not_supported : Option AuthenticationStatus → Bool
not_supported none = true
not_supported (some authentication_not_supported) = true
not_supported _ = false

-- an answer on an authentication; a version of NONE, or none, is no version
pub record AuthResponse : Type 0 where
  pub has_version : Bool
  pub status : Option AuthenticationStatus
  pub recommendation : Option Recommendation
  pub redirect_html : Bool

pub data AuthOutcome : Type 0 where
  frictionless challenge not_available rejected : AuthOutcome

-- `initiateAuthentication`: can the payer of this card be authenticated, and its recommendation
pub record Enrolment : Type 0 where
  pub available : Bool
  pub do_not_proceed : Bool

abbrev pub enrolment_of : AuthResponse → Enrolment
enrolment_of r = record {
  available = r.has_version && is_available r.status;
  do_not_proceed = refuses r.recommendation;
}

-- `authenticatePayer`
unfoldable pub outcome_of : AuthResponse → AuthOutcome
outcome_of r =
    if refuses r.recommendation
    then rejected
    else if is_successful r.status
    then frictionless
    else if r.redirect_html
    then challenge
    else if not_supported r.status
    then not_available
    else rejected

-- `retrieveAuthentication`
abbrev pub is_authenticated : AuthResponse → Bool
is_authenticated r = is_successful r.status && not (refuses r.recommendation)

pub data GatewayResult : Type 0 where
  success pending failure error unknown : GatewayResult

pub data GatewayCode : Type 0 where
  timed_out acquirer_system_error system_error other_code : GatewayCode

pub data BankCardPaymentStatus : Type 0 where
  success pending failed : BankCardPaymentStatus

-- `assertSuccess`: anything but SUCCESS throws
abbrev pub is_success : GatewayResult → Bool
is_success GatewayResult.success = true
is_success _ = false

abbrev is_retriable : Option GatewayCode → Bool
is_retriable none = false
is_retriable (some other_code) = false
is_retriable (some _) = true

-- `mapResultToStatus`
unfoldable pub map_result_to_status : GatewayResult → Option GatewayCode → BankCardPaymentStatus
map_result_to_status GatewayResult.success code = BankCardPaymentStatus.success
map_result_to_status GatewayResult.pending code = BankCardPaymentStatus.pending
map_result_to_status failure code =
    if is_retriable code then BankCardPaymentStatus.pending else BankCardPaymentStatus.failed
map_result_to_status error code = BankCardPaymentStatus.failed
map_result_to_status unknown code = BankCardPaymentStatus.failed
