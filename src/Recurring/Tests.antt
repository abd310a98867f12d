-- ===== src/Recurring/Tests.antt =====
-- A recurring payment, runs of the code on it, and the theorems at it.
use clustr_be.Recurring.Handling.{handle_recurring_payment_failure}
use Prim.Native.Nat.{◌*◌}
use clustr_be.Base.{
  ◌+◌, ◌<◌, ◌≡◌, ◌≢◌, ◌⊎◌, refl, true, false, none, some, arith, inr, if◌then◌else◌,
}
use clustr_be.Base.Int.{pos}
use clustr_be.Payments.Types.{Wallet}
use clustr_be.Payments.Store.{ok}
use clustr_be.Payments.Wallet.{has_sufficient_balance}
use clustr_be.Recurring.{
  RecurringPayment, Calendar, daily, weekly, monthly, quarterly, yearly, active, expired, is_past,
  is_over_limit, process_payment, pause, resume, cancel,
}
use clustr_be.Recurring.Failures.{HasAttempts, operations-HasAttempts}
use clustr_be.Recurring.Progress.{IsForward, process_payment_progress}

abbrev funds : Wallet
funds = record {
  id = 10;
  cluster = 1;
  user_id = 5;
  balance = pos 50000;
  available_balance = pos 40000;
  currency = "NGN";
  status = clustr_be.Payments.Types.active;
  last_transaction_at = none;
}

abbrev power : RecurringPayment
power = record {
  id = 30;
  user_id = 5;
  bill = none;
  wallet = 10;
  amount = pos 3000;
  frequency = monthly;
  status = active;
  end_date = some 120;
  next_payment_date = 100;
  last_payment_date = none;
  total_payments = 0;
  failed_attempts = 1;
  max_failed_attempts = 3;
  utility_provider = some 8;
  spending_limit = none;
  last_modified_by = none;
}

abbrev levy : RecurringPayment
levy = record power { utility_provider = none }

abbrev days : Calendar
days = record {
  add_days = λ t n. t + n;
  add_weeks = λ t n. t + 7 * n;
  add_months = λ t n. t + 30 * n;
  add_years = λ t n. t + 365 * n;
}

days-IsForward : IsForward days
days-IsForward daily t = omega arith
days-IsForward weekly t = omega arith
days-IsForward monthly t = omega arith
days-IsForward quarterly t = omega arith
days-IsForward yearly t = omega arith

-- The next date is past the end date, and the payment ends.
power_expires : (process_payment days 101 (some true) funds power).1.status ≡ expired
unfolding process_payment
power_expires = refl

operations-HasAttempts_example :
    HasAttempts (process_payment days 101 none funds power).1
    × HasAttempts (pause none power).1
    × HasAttempts (resume none power).1
    × HasAttempts (cancel none power).1
    × HasAttempts (handle_recurring_payment_failure "Timeout" power).1
operations-HasAttempts_example =
    operations-HasAttempts days 101 none funds none "Timeout" power (omega arith, inr (omega arith))

process_payment_progress_example :
    let (r, q) = process_payment days 101 (some true) funds power in
    ((r ≡ ok true)
      × (is_over_limit power.spending_limit power.amount ≡ false)
      × (has_sufficient_balance funds power.amount ≡ true)
      × (some true ≡ some true)
      × (100 < q.next_payment_date)
      × (q.total_payments ≡ 0 + 1)
      × (q.failed_attempts ≡ 0)
      × (q.status ≡ (if is_past power.end_date q.next_payment_date then expired else active)))
    ⊎ ((r ≡ ok false)
        × ((is_over_limit power.spending_limit power.amount ≡ true)
            ⊎ (has_sufficient_balance funds power.amount ≡ false)
            ⊎ (some true ≢ some true))
        × (q.next_payment_date ≡ 100)
        × (q.total_payments ≡ 0)
        × (q.failed_attempts ≡ 1 + 1))
process_payment_progress_example =
    process_payment_progress days 101 (some true) funds power days-IsForward refl refl
