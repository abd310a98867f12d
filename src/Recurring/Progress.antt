-- ===== src/Recurring/Progress.antt =====
-- What one run of a payment to a utility does to its dates and counters.
use clustr_be.Base.{
  ℕ, ◌+◌, ◌<◌, ◌≡◌, ◌≢◌, ◌⊎◌, Bool, true, false, Option, some, arith, if◌then◌else◌, is_some,
}
use clustr_be.Payments.Types.{Wallet}
use clustr_be.Payments.Store.{ok}
use clustr_be.Payments.Wallet.{has_sufficient_balance}
use clustr_be.Recurring.{
  RecurringPayment, Calendar, Frequency, active, expired, next_after, is_past, is_over_limit,
  process_payment,
}

-- Every step of the calendar leads to a later date.
abbrev pub IsForward : Calendar → Type 0
IsForward cal = (f : Frequency) (t : ℕ) → t < next_after cal f t

-- Where every step of the calendar is forward, a run of an active payment to a utility returns. It
-- returns true exactly when the amount is within the limit and the balance and the service
-- succeeds; then the next date is later, the payment is counted, and the payment ends if that date
-- is past its end. Else the dates and the count of payments stay, and one more failure is counted.
pub process_payment_progress :
    (cal : Calendar) (now : ℕ) (outcome : Option Bool) (w : Wallet) (p : RecurringPayment)
    → IsForward cal
    → p.status ≡ active
    → is_some p.utility_provider ≡ true
    → let (r, q) = process_payment cal now outcome w p in
      ((r ≡ ok true)
        × (is_over_limit p.spending_limit p.amount ≡ false)
        × (has_sufficient_balance w p.amount ≡ true)
        × (outcome ≡ some true)
        × (p.next_payment_date < q.next_payment_date)
        × (q.total_payments ≡ p.total_payments + 1)
        × (q.failed_attempts ≡ 0)
        × (q.status ≡ (if is_past p.end_date q.next_payment_date then expired else active)))
      ⊎ ((r ≡ ok false)
          × ((is_over_limit p.spending_limit p.amount ≡ true)
              ⊎ (has_sufficient_balance w p.amount ≡ false)
              ⊎ (outcome ≢ some true))
          × (q.next_payment_date ≡ p.next_payment_date)
          × (q.total_payments ≡ p.total_payments)
          × (q.failed_attempts ≡ p.failed_attempts + 1))
unfolding process_payment
process_payment_progress cal now outcome w p fwd h u =
    ground (arith, fwd p.frequency p.next_payment_date)
