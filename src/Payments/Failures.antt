-- ===== src/Payments/Failures.antt =====
-- Failed payments: core/common/includes/payment_error.py and the row of
-- core/common/models/payments/payment_error.py. A notice is never sent: `notifications.send` is
-- called with `event=`, which is no parameter of it, and the TypeError is caught.
pub mod Counts
pub mod Retries
pub mod Unfreezing
pub mod Errors
mod Tests
use Prim.Native.String.{String}
use clustr_be.Base.{
  ℕ, ◌+◌, Bool, true, false, ◌&&◌, Option, none, some, List, [], ◌∷◌, ◌++◌, not, ltb, leb,
  if◌then◌else◌,
}
use clustr_be.Base.Keywords.{lower, has_any}
use clustr_be.Payments.Types.{Transaction, TransactionStatus, pending, failed}
use clustr_be.Payments.Store.{Action, pure, ◌>>=◌, ◌>>◌, get_transaction, save_transaction}
use clustr_be.Payments.Transaction.{mark_as_failed}
use clustr_be.Payments.Webhook.{PaymentProvider, paystack, flutterwave, bank_transfer, cash}

pub data PaymentErrorType : Type 0 where
  insufficient_funds invalid_card expired_card declined_card network_error : PaymentErrorType
  provider_error validation_error timeout_error authentication_error : PaymentErrorType
  limit_exceeded account_suspended unknown_error : PaymentErrorType

pub data PaymentErrorSeverity : Type 0 where
  low medium high critical : PaymentErrorSeverity

unfoldable pub categorize_error : String → PaymentErrorType
unfolding has_any
categorize_error message =
    let text = lower message in
    if has_any ("insufficient" ∷ "balance" ∷ "funds" ∷ []) text
    then insufficient_funds
    else if has_any ("invalid" ∷ "card" ∷ []) text
    then invalid_card
    else if has_any ("expired" ∷ "expiry" ∷ []) text
    then expired_card
    else if has_any ("declined" ∷ "rejected" ∷ []) text
    then declined_card
    else if has_any ("network" ∷ "connection" ∷ "timeout" ∷ []) text
    then network_error
    else if has_any ("authentication" ∷ "unauthorized" ∷ []) text
    then authentication_error
    else if has_any ("limit" ∷ "exceeded" ∷ []) text
    then limit_exceeded
    else if has_any ("suspended" ∷ "blocked" ∷ []) text
    then account_suspended
    else unknown_error

unfoldable pub get_error_severity : PaymentErrorType → PaymentErrorSeverity
get_error_severity insufficient_funds = medium
get_error_severity invalid_card = high
get_error_severity expired_card = medium
get_error_severity declined_card = medium
get_error_severity network_error = low
get_error_severity provider_error = high
get_error_severity validation_error = medium
get_error_severity timeout_error = low
get_error_severity authentication_error = high
get_error_severity limit_exceeded = medium
get_error_severity account_suspended = critical
get_error_severity unknown_error = medium

-- The suggested actions and the contacts are texts and are left out.
pub record RecoveryOptions : Type 0 where
  pub can_retry : Bool
  pub retry_delay_minutes : ℕ
  pub max_retries : ℕ
  pub alternative_methods : List String

abbrev pub base_options : RecoveryOptions
base_options = record {
  can_retry = true;
  retry_delay_minutes = 5;
  max_retries = 3;
  alternative_methods = [];
}

-- The options of an error's type, before the provider's alternative.
abbrev pub options_of : PaymentErrorType → RecoveryOptions
options_of insufficient_funds = record base_options {
  can_retry = false;
  alternative_methods = "bank_transfer" ∷ "cash_deposit" ∷ [];
}
options_of invalid_card = record base_options {
  alternative_methods = "bank_transfer" ∷ "different_card" ∷ [];
}
options_of expired_card = record base_options {
  can_retry = false;
  alternative_methods = "bank_transfer" ∷ "different_card" ∷ [];
}
options_of declined_card = record base_options {
  max_retries = 1;
  alternative_methods = "bank_transfer" ∷ "different_card" ∷ [];
}
options_of network_error = record base_options { retry_delay_minutes = 2; max_retries = 5 }
options_of account_suspended = record base_options { can_retry = false }
options_of other = base_options

abbrev pub other_provider : PaymentProvider → List String
other_provider paystack = "flutterwave" ∷ []
other_provider flutterwave = "paystack" ∷ []
other_provider bank_transfer = []
other_provider cash = []

-- The second argument is the transaction's provider.
unfoldable pub get_recovery_options : PaymentErrorType → PaymentProvider → RecoveryOptions
get_recovery_options e p =
    let o = options_of e in
    record o { alternative_methods = o.alternative_methods ++ other_provider p }

pub record FailureResult : Type 0 where
  pub error_type : PaymentErrorType
  pub severity : PaymentErrorSeverity
  pub recovery_options : RecoveryOptions
  pub transaction_id : ℕ

-- The provider is the transaction's, a column that nothing else of the model reads.
unfoldable pub failure_result : String → PaymentProvider → ℕ → FailureResult
unfolding categorize_error get_error_severity get_recovery_options
failure_result message provider i =
    let e = categorize_error message in
    record {
      error_type = e;
      severity = get_error_severity e;
      recovery_options = get_recovery_options e provider;
      transaction_id = i;
    }

unfoldable pub handle_transaction_failure : ℕ → PaymentProvider → String → ℕ → Action FailureResult
handle_transaction_failure now provider message i =
    mark_as_failed now (some message) i >> pure (failure_result message provider i)

abbrev pub is_failed : TransactionStatus → Bool
is_failed failed = true
is_failed _ = false

-- `metadata.get("retry_count", 0)`
abbrev pub count_or_zero : Option ℕ → ℕ
count_or_zero none = 0
count_or_zero (some n) = n

-- The row that a retry saves; the time of the retry, which nothing reads, is left out.
abbrev pub reset : Transaction → Transaction
reset t = record t {
  metadata = record t.metadata { retry_count = some (count_or_zero t.metadata.retry_count + 1) };
  status = pending;
  failed_at = none;
  failure_reason = none;
}

-- `retry_failed_transaction` on a loaded row.
unfoldable pub retry_row : Transaction → Action Bool
retry_row t =
    if is_failed t.status && not (leb 3 (count_or_zero t.metadata.retry_count))
    then save_transaction (reset t) >> pure true
    else pure false

unfoldable pub retry_failed_transaction : ℕ → Action Bool
unfolding retry_row
retry_failed_transaction i = get_transaction i >>= retry_row
