-- ===== src/Utilities/Tests.antt =====
-- A provider of electricity, runs of the code on it, and the theorems at it.
use clustr_be.Payments.Wallet.{has_sufficient_balance, freeze_amount}
use clustr_be.Base.{◌+◌, ◌≡◌, refl, true, none, some, [], ◌∷◌, arith}
use clustr_be.Base.Int.{pos}
use clustr_be.Payments.Types.{Wallet}
use clustr_be.Payments.Store.{◌>>◌, get_wallet, ◌>>=◌, Db, ok, type_error}
use clustr_be.Payments.Webhook.{paystack}
use clustr_be.Recurring.{RecurringPayment, Calendar, daily, paused}
use clustr_be.Utilities.{
  validate_customer, UtilityProvider, Purchase, get_param, is_amount_valid, purchase_utility,
}
use clustr_be.Utilities.Payment.{
  freeze_and_purchase, utility_row_payment, Json, setup_failed, process_utility_payment,
}
use clustr_be.Utilities.Refused.{
  IsReplay, process_utility_payment-IsReplay, process_utility_payment_keeps,
}
use clustr_be.Utilities.Automated.{Subscription, run_payments}
use clustr_be.Utilities.Setup.{
  Schedule, scheduled_row, set_up, setup_recurring_utility_payment,
  setup_recurring_utility_payment-run_payments,
}

abbrev ikeja : UtilityProvider
ikeja = record {
  id = 8;
  cluster = 1;
  api_provider = paystack;
  provider_code = "ikeja-electric";
  minimum_amount = pos 10000;
  maximum_amount = pos 10000000;
}

abbrev purse : Wallet
purse = record {
  id = 10;
  cluster = 1;
  user_id = 5;
  balance = pos 50000;
  available_balance = pos 50000;
  currency = "NGN";
  status = clustr_be.Payments.Types.active;
  last_transaction_at = none;
}

abbrev estate : Db
estate = record {
  wallets = purse ∷ [];
  transactions = [];
  bills = [];
  disputes = [];
  users = [];
  outbox = [];
  next_id = 100;
}

abbrev plain : Json
plain = record { dumps = λ p. "" }

abbrev bought_power : Purchase
bought_power = record {
  success = true;
  reference = 100;
  amount = pos 20000;
  customer_id = "45701";
  provider_code = "ikeja-electric";
  metadata = [];
  token = some "0123-4567-8901-2345-6789";
  bundle = none;
}

power_token :
    purchase_utility paystack "45701" (pos 20000) "ikeja-electric" 100 [] ≡ ok bought_power
unfolding purchase_utility
power_token = refl

bundle_given :
    get_param "bundle_code" (("service_type", "internet") ∷ ("bundle_code", "2GB") ∷ [])
    ≡ some "2GB"
bundle_given = refl

plain_column :
    process_utility_payment plain (λ e. "") 7 5 ikeja "45701" (pos 20000) 10 (some 3) [] estate
    ≡ (setup_failed type_error, estate)
unfolding process_utility_payment ◌>>=◌ get_wallet utility_row_payment has_sufficient_balance
    is_amount_valid freeze_and_purchase freeze_amount ◌>>◌
plain_column = refl

process_utility_payment-IsReplay_example :
    let (a, db') =
      process_utility_payment plain (λ e. "") 7 5 ikeja "45701" (pos 20000) 10 (some 3) [] estate in
    (db'.bills ≡ estate.bills) × IsReplay (some 3) 10 estate a
process_utility_payment-IsReplay_example =
    process_utility_payment-IsReplay plain (λ e. "") 7 5 10 ikeja "45701" (pos 20000) (some 3) []
      estate

abbrev days : Calendar
days = record {
  add_days = λ t n. t + n;
  add_weeks = λ t n. t + n;
  add_months = λ t n. t + n;
  add_years = λ t n. t + n;
}

abbrev daily_power : Schedule
daily_power = record {
  frequency = daily;
  spending_limit = none;
  start_date = some 20;
  next_payment_date = none;
}

abbrev meter : Subscription
meter = record { provider = ikeja; customer_id = "45701"; idempotency_key = none; metadata = [] }

abbrev standing : RecurringPayment
standing = scheduled_row 7 40 5 ikeja (pos 20000) purse daily_power

is_set_up :
    setup_recurring_utility_payment 7 40 5 ikeja "45701" (pos 20000) purse daily_power
    ≡ set_up standing
unfolding setup_recurring_utility_payment validate_customer is_amount_valid
is_set_up = refl

setup_recurring_utility_payment-run_payments_example :
    let (q, db') =
      run_payments days plain (λ e. "") meter (20 ∷ 21 ∷ 22 ∷ []) purse standing estate in
    (is_amount_valid ikeja (pos 20000) ≡ true)
    × (db' ≡ estate)
    × (q.status ≡ paused)
    × (q.failed_attempts ≡ 3)
setup_recurring_utility_payment-run_payments_example =
    setup_recurring_utility_payment-run_payments days plain (λ e. "") 7 40 5 ikeja "45701"
      (pos 20000) purse daily_power meter (20 ∷ 21 ∷ 22 ∷ []) standing estate refl is_set_up
      (omega arith)

process_utility_payment_keeps_example :
    (process_utility_payment plain (λ e. "") 7 5 ikeja "45701" (pos 20000) 10 (some 3) [] estate).1
    ≡ estate
process_utility_payment_keeps_example =
    process_utility_payment_keeps plain (λ e. "") 7 5 10 ikeja "45701" (pos 20000) (some 3) []
      estate
