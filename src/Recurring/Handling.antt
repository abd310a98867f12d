-- ===== src/Recurring/Handling.antt =====
-- `handle_recurring_payment_failure` of core/common/includes/payment_error.py. Its notice is never
-- sent, as those of the other failures.
use Prim.Native.String.{String}
use clustr_be.Base.{ℕ, ◌+◌, Bool, true, false, leb, if◌then◌else◌}
use clustr_be.Recurring.{RecurringPayment, Status, paused}
use clustr_be.Payments.Failures.{
  PaymentErrorType, PaymentErrorSeverity, categorize_error, get_error_severity,
}

pub record RecurringFailure : Type 0 where
  pub error_type : PaymentErrorType
  pub severity : PaymentErrorSeverity
  pub failed_attempts : ℕ
  pub status : Status
  pub is_paused : Bool

abbrev pub is_paused_status : Status → Bool
is_paused_status paused = true
is_paused_status _ = false

-- The row that is saved.
unfoldable pub failed_once : RecurringPayment → RecurringPayment
failed_once p =
    let n = p.failed_attempts + 1 in
    record p {
      failed_attempts = n;
      status = if leb p.max_failed_attempts n then paused else p.status;
    }

unfoldable pub handle_recurring_payment_failure :
    String → RecurringPayment → RecurringFailure × RecurringPayment
unfolding failed_once
handle_recurring_payment_failure message p =
    let e = categorize_error message in
    let p' = failed_once p in
    (
      record {
        error_type = e;
        severity = get_error_severity e;
        failed_attempts = p'.failed_attempts;
        status = p'.status;
        is_paused = is_paused_status p'.status;
      },
      p',
    )
