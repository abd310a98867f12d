-- ===== src/Payments/Webhook/Tests.antt =====
-- A webhook for a completed deposit, and the theorems at it.
use clustr_be.Base.{◌≡◌, refl, true, none, some, [], ◌∷◌}
use clustr_be.Base.Int.{pos}
use clustr_be.Payments.Types.{Transaction, deposit, completed}
use clustr_be.Payments.Store.{Db}
use clustr_be.Payments.Transaction.{no_metadata}
use clustr_be.Payments.Webhook.{
  Gateway, Payload, charge_success, paystack, process_webhook, reference_of,
  verify_provider_signature, verify_error,
}
use clustr_be.Payments.Webhook.Outcomes.{IsFailureOnly, process_webhook-IsFailureOnly}

abbrev report : Payload
report = record { event = some charge_success; reference = some 90; tx_ref = none }

-- Every payload is the same report, and every signature is good.
abbrev trusting : Gateway
trusting = record {
  loads = λ _. some report;
  hmac_sha512 = λ key payload. payload;
  compare_digest = λ a b. true;
  paystack_secret_key = some "key";
  flutterwave_secret_hash = none;
  paystack_error = none;
  flutterwave_error = none;
}

abbrev top_up : Transaction
top_up = record {
  id = 90;
  cluster = 1;
  wallet = 10;
  bill = none;
  type = deposit;
  amount = pos 500;
  currency = "NGN";
  status = completed;
  provider_response = none;
  metadata = no_metadata;
  idempotency_key = none;
  processed_at = some 40;
  failed_at = none;
  failure_reason = none;
  created_by = some 5;
}

abbrev books : Db
books = record {
  wallets = [];
  transactions = top_up ∷ [];
  bills = [];
  disputes = [];
  users = [];
  outbox = [];
  next_id = 100;
}

good_signature : verify_provider_signature trusting paystack "{}" "s" ≡ true
unfolding verify_provider_signature
good_signature = refl

report_reference : reference_of paystack report ≡ some 90
unfolding reference_of
report_reference = refl

process_webhook-IsFailureOnly_example :
    IsFailureOnly
      (verify_error trusting paystack)
      books
      (process_webhook trusting paystack "{}" "s" books)
process_webhook-IsFailureOnly_example =
    process_webhook-IsFailureOnly trusting paystack "{}" "s" books
