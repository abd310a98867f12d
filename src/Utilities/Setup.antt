-- ===== src/Utilities/Setup.antt =====
-- `setup_recurring_utility_payment` and `validate_utility_customer` of
-- core/common/includes/utilities.py.
use Prim.Native.String.{String}
use clustr_be.Base.{
  ℕ, ◌≤◌, ◌<◌, is_some, ◌≡◌, true, Option, none, some, List, arith, not, length, find_first,
  if◌then◌else◌,
}
use clustr_be.Base.Int.{ℤ}
use clustr_be.Payments.Types.{Wallet}
use clustr_be.Payments.Store.{Db, Error, Result, ok, err}
use clustr_be.Recurring.{RecurringPayment, Calendar, Frequency, active, paused}
use clustr_be.Utilities.{UtilityProvider, CustomerInfo, is_amount_valid, validate_customer}
use clustr_be.Payments.Bills.{is_duplicate}
use clustr_be.Utilities.Payment.{Json}
use clustr_be.Utilities.Automated.{Subscription, run_payments, run_payments-AfterFailures}

-- `validate_utility_customer`: an exception is an answer, a success or its text.
unfoldable pub validate_utility_customer : UtilityProvider → String → Result CustomerInfo
validate_utility_customer u customer = validate_customer u.api_provider customer u.provider_code

pub data SetupAnswer : Type 0 where
  customer_refused amount_refused : SetupAnswer
  set_up : RecurringPayment → SetupAnswer
  not_set_up : Error → SetupAnswer

-- The keyword arguments that become columns; the title, the description and the source are texts
-- that no operation reads. An end is not among them, so a payment that is set up has none.
pub record Schedule : Type 0 where
  pub frequency : Frequency
  pub spending_limit : Option ℤ
  pub start_date : Option ℕ
  pub next_payment_date : Option ℕ

abbrev pub or_date : ℕ → Option ℕ → ℕ
or_date a none = a
or_date a (some b) = b

-- The new row, with the defaults of its columns.
abbrev pub scheduled_row : ℕ → ℕ → ℕ → UtilityProvider → ℤ → Wallet → Schedule → RecurringPayment
scheduled_row now id user u amount w s = record {
  id = id;
  user_id = user;
  bill = none;
  wallet = w.id;
  amount = amount;
  frequency = s.frequency;
  status = active;
  end_date = none;
  next_payment_date = or_date (or_date now s.start_date) s.next_payment_date;
  last_payment_date = none;
  total_payments = 0;
  failed_attempts = 0;
  max_failed_attempts = 3;
  utility_provider = some u.id;
  spending_limit = s.spending_limit;
  last_modified_by = some user;
}

-- `id` is the identifier of the new row.
unfoldable pub setup_recurring_utility_payment :
    ℕ → ℕ → ℕ → UtilityProvider → String → ℤ → Wallet → Schedule → SetupAnswer
setup_recurring_utility_payment now id user u customer amount w s =
    elim (validate_customer u.api_provider customer u.provider_code) [
      | err e ↦ not_set_up e
      | ok info ↦
          if not info.success
          then customer_refused
          else if not (is_amount_valid u amount)
          then amount_refused
          else set_up (scheduled_row now id user u amount w s)
    ]

set_up_row :
    (now id user : ℕ) (u : UtilityProvider) (customer : String) (x : ℤ) (w : Wallet) (s : Schedule)
    (p : RecurringPayment)
    → setup_recurring_utility_payment now id user u customer x w s ≡ set_up p
    → (p ≡ scheduled_row now id user u x w s) × (is_amount_valid u x ≡ true)
unfolding setup_recurring_utility_payment validate_customer
set_up_row now id user u customer x w s p h = ground arith

-- A recurring payment that was set up is for an amount within the limits of its provider, and
-- three runs of it or more, at whatever times, on metadata that names no key which a transaction of
-- its wallet has, pause it and leave the tables as they were.
pub setup_recurring_utility_payment-run_payments :
    (cal : Calendar) (j : Json) (str : Error → String) (now id user : ℕ) (u : UtilityProvider)
    (customer : String) (x : ℤ) (w : Wallet) (s : Schedule) (sub : Subscription) (times : List ℕ)
    (p : RecurringPayment) (db : Db)
    → find_first (is_duplicate sub.idempotency_key w.id) db.transactions ≡ none
    → setup_recurring_utility_payment now id user u customer x w s ≡ set_up p
    → 3 ≤ length times
    → let (q, db') = run_payments cal j str sub times w p db in
      (is_amount_valid u x ≡ true) × (db' ≡ db) × (q.status ≡ paused) × (q.failed_attempts ≡ 3)
setup_recurring_utility_payment-run_payments cal j str now id user u customer x w s sub times p db
      hj hs ht =
    let (e, valid) = set_up_row now id user u customer x w s p hs in
    let status : p.status ≡ active = ground arith in
    let left : p.failed_attempts < p.max_failed_attempts = ground arith in
    let utility : is_some p.utility_provider ≡ true = ground arith in
    let (same, q) = run_payments-AfterFailures cal j str sub times w p db hj status left utility in
    (valid, same, ground arith, ground arith)
