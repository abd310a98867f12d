-- ===== src/Payments/Failures/Tests.antt =====
-- A failed deposit, runs of the code on it, and the theorems at it.
use Prim.Native.String.{String}
use clustr_be.Base.{◌≡◌, ◌⊎◌, inr, refl, true, false, none, some, List, [], ◌∷◌, update_first}
use clustr_be.Base.Int.{pos, ◌+ℤ◌}
use clustr_be.Payments.Types.{Wallet, Transaction, active, deposit, withdrawal, failed}
use clustr_be.Payments.Store.{Db, ok, wallet_is, get_transaction, ◌>>=◌, ◌>>◌}
use clustr_be.Payments.Wallet.{has_sufficient_balance}
use clustr_be.Payments.Transaction.{
  no_metadata, create_pending_transaction, mark_as_failed, release,
}
use clustr_be.Payments.Webhook.{Gateway, paystack, bank_transfer}
use clustr_be.Payments.Failures.{
  categorize_error, invalid_card, network_error, low, handle_transaction_failure,
  retry_failed_transaction,
}
use clustr_be.Payments.Failures.Errors.{
  PaymentError, create_payment_error_record, retry_failed_payment, get_next_retry_delay,
  mark_as_resolved,
}
use clustr_be.Payments.Failures.Retries.{Event, failure, retry, retry_error, resolution, retries}
use clustr_be.Payments.Failures.Unfreezing.{handle_transaction_failure-retry_failed_transaction}

abbrev provider_works : Gateway
provider_works = record {
  loads = λ _. none;
  hmac_sha512 = λ key payload. payload;
  compare_digest = λ a b. false;
  paystack_secret_key = none;
  flutterwave_secret_hash = none;
  paystack_error = none;
  flutterwave_error = none;
}

abbrev purse : Wallet
purse = record {
  id = 10;
  cluster = 1;
  user_id = 5;
  balance = pos 50000;
  available_balance = pos 40000;
  currency = "NGN";
  status = active;
  last_transaction_at = none;
}

abbrev declined_deposit : Transaction
declined_deposit = record {
  id = 90;
  cluster = 1;
  wallet = 10;
  bill = none;
  type = deposit;
  amount = pos 500;
  currency = "NGN";
  status = failed;
  provider_response = none;
  metadata = no_metadata;
  idempotency_key = none;
  processed_at = none;
  failed_at = some 40;
  failure_reason = some "Connection lost";
  created_by = some 5;
}

abbrev shop : Db
shop = record {
  wallets = purse ∷ [];
  transactions = declined_deposit ∷ [];
  bills = [];
  disputes = [];
  users = [];
  outbox = [];
  next_id = 100;
}

-- "card" is looked for before "expired", so an expired card may be tried three times more.
expired_card_is_invalid : categorize_error "Your card has EXPIRED" ≡ invalid_card
unfolding categorize_error
expired_card_is_invalid = refl

connection_is_network : categorize_error "Connection lost" ≡ network_error
unfolding categorize_error
connection_is_network = refl

abbrev lost : PaymentError
lost = record {
  transaction = 90;
  error_type = network_error;
  severity = low;
  retry_count = 0;
  max_retries = 5;
  can_retry = true;
  is_resolved = false;
  resolved_at = none;
  admin_notified = false;
  user_notified = true;
}

lost_created :
    create_payment_error_record true paystack "Connection lost" declined_deposit ≡ some lost
unfolding create_payment_error_record
lost_created = refl

lost_delay : get_next_retry_delay (record lost { retry_count = 3 }) ≡ 8
unfolding get_next_retry_delay
lost_delay = refl

abbrev answer : Transaction → String ⊎ String
answer t = inr "accepted"

abbrev history : List Event
history =
    retry
    ∷ retry
    ∷ failure "timeout"
    ∷ retry
    ∷ failure "timeout"
    ∷ retry_error
    ∷ failure "timeout"
    ∷ retry
    ∷ failure "timeout"
    ∷ retry
    ∷ resolution
    ∷ retry_error
    ∷ []

-- The second retry comes too early, the fifth finds the count at three, and at last the error is
-- resolved.
four_granted : retries provider_works answer true 50 paystack 90 history lost shop ≡ 4
unfolding retries handle_transaction_failure retry_failed_transaction ◌>>=◌ get_transaction ◌>>◌
    mark_as_failed release retry_failed_payment mark_as_resolved
four_granted = refl

handle_transaction_failure-retry_failed_transaction_example :
    let (r, db₁) = create_pending_transaction 10 (pos 700) withdrawal true shop in
    let (r', db₂) = handle_transaction_failure 60 bank_transfer "Timeout" 100 db₁ in
    let (again, db₃) = retry_failed_transaction 100 db₂ in
    let (r'', db₄) = handle_transaction_failure 60 bank_transfer "Blocked" 100 db₃ in
    (again ≡ ok true)
    × (db₃.wallets ≡ shop.wallets)
    × (db₄.wallets
        ≡ update_first
            (wallet_is 10)
            (λ _. record purse { available_balance = pos 40000 +ℤ pos 700 })
            shop.wallets)
unfolding has_sufficient_balance
handle_transaction_failure-retry_failed_transaction_example =
    handle_transaction_failure-retry_failed_transaction 60 bank_transfer "Timeout" "Blocked"
      (pos 700) withdrawal purse shop refl refl refl refl
