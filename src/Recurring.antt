-- ===== src/Recurring.antt =====
-- core/common/models/payments/recurring_payment.py, and the functions of
-- core/common/includes/recurring_payments.py and payments.py that act on its rows.
-- A method returns its result and the new row.
pub mod Handling
pub mod Failures
pub mod Progress
mod Tests
use clustr_be.Base.{
  ℕ, ◌+◌, Bool, true, false, ◌&&◌, Option, none, some, List, [], ◌∷◌, ltb, leb, not, if◌then◌else◌,
  is_some,
}
use clustr_be.Base.Int.{ℤ, pos, ltb_ℤ, eqb_ℤ}
use clustr_be.Payments.Types.{Wallet}
use clustr_be.Payments.Store.{Result, ok, err, attribute_error, name_error, module_not_found}
use clustr_be.Payments.Wallet.{has_sufficient_balance}

pub data Status : Type 0 where
  active paused cancelled expired : Status

pub data Frequency : Type 0 where
  daily weekly monthly quarterly yearly : Frequency

pub record RecurringPayment : Type 0 where
  pub id : ℕ
  pub user_id : ℕ
  pub bill : Option ℕ
  pub wallet : ℕ
  pub amount : ℤ
  pub frequency : Frequency
  pub status : Status
  pub end_date : Option ℕ
  pub next_payment_date : ℕ
  pub last_payment_date : Option ℕ
  pub total_payments : ℕ
  pub failed_attempts : ℕ
  pub max_failed_attempts : ℕ
  pub utility_provider : Option ℕ
  pub spending_limit : Option ℤ
  pub last_modified_by : Option ℕ

-- `date + relativedelta(days=…)` and so on, of the library dateutil.
pub record Calendar : Type 0 where
  pub add_days : ℕ → ℕ → ℕ
  pub add_weeks : ℕ → ℕ → ℕ
  pub add_months : ℕ → ℕ → ℕ
  pub add_years : ℕ → ℕ → ℕ

abbrev pub is_active : Status → Bool
is_active active = true
is_active _ = false

abbrev pub is_paused : Status → Bool
is_paused paused = true
is_paused _ = false

abbrev pub is_cancelled : Status → Bool
is_cancelled cancelled = true
is_cancelled _ = false

abbrev pub next_after : Calendar → Frequency → ℕ → ℕ
next_after cal daily t = cal.add_days t 1
next_after cal weekly t = cal.add_weeks t 1
next_after cal monthly t = cal.add_months t 1
next_after cal quarterly t = cal.add_months t 3
next_after cal yearly t = cal.add_years t 1

unfoldable pub calculate_next_payment_date : Calendar → RecurringPayment → ℕ
calculate_next_payment_date cal p = next_after cal p.frequency p.next_payment_date

unfoldable pub is_utility_payment : RecurringPayment → Bool
is_utility_payment p = is_some p.utility_provider

-- The lines that every failed attempt runs.
unfoldable pub count_failure : RecurringPayment → RecurringPayment
count_failure p =
    let n = p.failed_attempts + 1 in
    record p {
      failed_attempts = n;
      status = if leb p.max_failed_attempts n then paused else p.status;
    }

abbrev pub is_past : Option ℕ → ℕ → Bool
is_past none t = false
is_past (some e) t = ltb e t

-- The lines that a successful payment runs.
unfoldable pub count_payment : Calendar → ℕ → RecurringPayment → RecurringPayment
unfolding calculate_next_payment_date
count_payment cal now p =
    let next = calculate_next_payment_date cal p in
    record p {
      last_payment_date = some now;
      next_payment_date = next;
      total_payments = p.total_payments + 1;
      failed_attempts = 0;
      status = if is_past p.end_date next then expired else p.status;
    }

-- Without the balance the failure is counted and saved, and then the import of
-- `core.common.includes.payment_error_utils` raises: there is no such module. With the balance the
-- first statement names `Transaction`, which the file does not import.
unfoldable pub process_cluster_payment : Wallet → RecurringPayment → Result Bool × RecurringPayment
unfolding count_failure has_sufficient_balance
process_cluster_payment w p =
    if not (has_sufficient_balance w p.amount)
    then (err module_not_found, count_failure p)
    else (err name_error, p)

abbrev pub is_over_limit : Option ℤ → ℤ → Bool
is_over_limit none amount = false
is_over_limit (some l) amount = not (eqb_ℤ l (pos 0)) && ltb_ℤ l amount

-- The outcome of `utilities.process_utility_payment`: whether it says success, or nothing where
-- it raises.
unfoldable pub process_utility_payment :
    Calendar → ℕ → Option Bool → Wallet → RecurringPayment → Result Bool × RecurringPayment
unfolding count_failure count_payment has_sufficient_balance
process_utility_payment cal now outcome w p =
    if is_over_limit p.spending_limit p.amount
    then (ok false, count_failure p)
    else if not (has_sufficient_balance w p.amount)
    then (ok false, count_failure p)
    else elim outcome [
      | some true ↦ (ok true, count_payment cal now p)
      | some false ↦ (ok false, count_failure p)
      | none ↦ (ok false, count_failure p)
    ]

unfoldable pub process_payment :
    Calendar → ℕ → Option Bool → Wallet → RecurringPayment → Result Bool × RecurringPayment
unfolding process_cluster_payment process_utility_payment is_utility_payment
process_payment cal now outcome w p =
    if not (is_active p.status)
    then (ok false, p)
    else if is_utility_payment p
    then process_utility_payment cal now outcome w p
    else process_cluster_payment w p

-- `recurring_payments.pause` and `RecurringPayment.pause`; so for the next two.
unfoldable pub pause : Option ℕ → RecurringPayment → Bool × RecurringPayment
pause by_user p =
    if not (is_active p.status)
    then (false, p)
    else (true, record p { status = paused; last_modified_by = by_user })

unfoldable pub resume : Option ℕ → RecurringPayment → Bool × RecurringPayment
resume by_user p =
    if not (is_paused p.status)
    then (false, p)
    else (true, record p { status = active; failed_attempts = 0; last_modified_by = by_user })

unfoldable pub cancel : Option ℕ → RecurringPayment → Bool × RecurringPayment
cancel by_user p =
    if is_cancelled p.status
    then (false, p)
    else (true, record p { status = cancelled; last_modified_by = by_user })

-- The creation of the transaction reads `TransactionType.RECURRING_PAYMENT`, which is no type.
abbrev pub create_recurring_transaction : Result ℕ
create_recurring_transaction = err attribute_error

-- `payments.process_recurring_payment`: every exception is logged and swallowed.
unfoldable pub process_recurring_payment : Wallet → RecurringPayment → Option ℕ
unfolding has_sufficient_balance
process_recurring_payment w p =
    if not (has_sufficient_balance w p.amount)
    then none
    else elim create_recurring_transaction [ ok i ↦ some i | err e ↦ none ]

pub record Counts : Type 0 where
  pub processed : ℕ
  pub failed : ℕ
  pub paused_count : ℕ

-- The payments that `process_due_payments` selects.
abbrev pub is_due : ℕ → RecurringPayment → Bool
is_due now p = is_active p.status && leb p.next_payment_date now

-- `update_next_payment_date`, which is called for a processed payment, does not exist.
abbrev pub update_next_payment_date : Result (Unit {0})
update_next_payment_date = err attribute_error

abbrev pub tally : Option ℕ → Counts → Counts
tally (some i) c = elim update_next_payment_date [
  | ok _ ↦ record c { processed = c.processed + 1 }
  | err _ ↦ record c { failed = c.failed + 1 }
]
tally none c = record c { failed = c.failed + 1 }

-- One round of the loop, over a payment with its wallet.
unfoldable pub process_due : Wallet × RecurringPayment → Counts → Counts
unfolding process_recurring_payment has_sufficient_balance
process_due (w, p) c =
    if not (has_sufficient_balance w p.amount)
    then record c { failed = c.failed + 1 }
    else tally (process_recurring_payment w p) c

unfoldable pub process_due_payments : ℕ → List (Wallet × RecurringPayment) → Counts → Counts
unfolding process_due
process_due_payments now [] c = c
process_due_payments now (e ∷ es) c =
    process_due_payments now es (if is_due now e.1 then process_due e c else c)
