-- ===== src/Payments/Failures/Errors.antt =====
-- `class PaymentError`, core/common/models/payments/payment_error.py, and the functions of
-- core/common/includes/payment_error.py that create and retry its rows.
use Prim.Native.String.{String}
use Prim.Native.Nat.{◌^◌}
use clustr_be.Base.{
  ℕ, ◌+◌, Bool, true, false, ◌&&◌, ◌⊎◌, inl, inr, Option, none, some, not, ltb, leb, if◌then◌else◌,
  find_first,
}
use clustr_be.Payments.Types.{Transaction, TransactionType, pending, deposit}
use clustr_be.Payments.Store.{
  Db, Result, ok, err, Action, pure, ◌>>◌, transaction_is, save_transaction, does_not_exist,
}
use clustr_be.Payments.Transaction.{fail_row}
use clustr_be.Payments.Webhook.{Gateway, PaymentProvider, get_provider_error}
use clustr_be.Payments.Failures.{
  PaymentErrorType, PaymentErrorSeverity, critical, categorize_error, get_error_severity,
  get_recovery_options,
}

pub record PaymentError : Type 0 where
  pub transaction : ℕ
  pub error_type : PaymentErrorType
  pub severity : PaymentErrorSeverity
  pub retry_count : ℕ
  pub max_retries : ℕ
  pub can_retry : Bool
  pub is_resolved : Bool
  pub resolved_at : Option ℕ
  pub admin_notified : Bool
  pub user_notified : Bool

unfoldable pub can_be_retried : PaymentError → Bool
can_be_retried e = e.can_retry && (ltb e.retry_count e.max_retries && not e.is_resolved)

unfoldable pub increment_retry_count : PaymentError → PaymentError
increment_retry_count e = record e { retry_count = e.retry_count + 1 }

-- The method of the resolution is a text and is left out.
unfoldable pub mark_as_resolved : ℕ → PaymentError → PaymentError
mark_as_resolved now e = record e { is_resolved = true; resolved_at = some now }

unfoldable pub get_next_retry_delay : PaymentError → ℕ
get_next_retry_delay e = if leb (2 ^ e.retry_count) 30 then 2 ^ e.retry_count else 30

abbrev pub is_critical : PaymentErrorSeverity → Bool
is_critical critical = true
is_critical _ = false

-- The row that is created, with the flags that are set after the notices. The first argument
-- says whether the database cuts no text: the columns get the texts of Enum members, such as
-- "PaymentErrorSeverity.LOW", which are longer than `severity` allows, and a database that checks
-- the length raises `DataError`, here none.
unfoldable pub create_payment_error_record :
    Bool → PaymentProvider → String → Transaction → Option PaymentError
unfolding categorize_error get_error_severity get_recovery_options
create_payment_error_record false provider message t = none
create_payment_error_record true provider message t =
    let type = categorize_error message in
    let options = get_recovery_options type provider in
    some (record {
      transaction = t.id;
      error_type = type;
      severity = get_error_severity type;
      retry_count = 0;
      max_retries = options.max_retries;
      can_retry = options.can_retry;
      is_resolved = false;
      resolved_at = none;
      admin_notified = is_critical (get_error_severity type);
      user_notified = true;
    })

abbrev pub is_deposit : TransactionType → Bool
is_deposit deposit = true
is_deposit _ = false

abbrev pub resumed : Transaction → Transaction
resumed t = record t { status = pending; failed_at = none; failure_reason = none }

-- What `provider.initialize_payment` gives: the text of its exception, or the response. The
-- response's reference is a column that nothing else of the model reads.
unfoldable pub store_response : ℕ → Transaction → String ⊎ String → Action Bool
store_response now t (inl e) = fail_row now (some e) t >> pure false
store_response now t (inr response) =
    save_transaction (record t { provider_response = some response }) >> pure true

-- The body of `retry_failed_payment` once there is a provider. `has_contact` says that the
-- metadata hold an e-mail address and a callback.
unfoldable pub attempt : (Transaction → String ⊎ String) → Bool → ℕ → Transaction → Action Bool
unfolding store_response
attempt initialize_payment has_contact now t =
    save_transaction (resumed t)
    >> (if is_deposit t.type && has_contact
        then store_response now (resumed t) (initialize_payment (resumed t))
        else pure true)

-- Without a provider the exception is caught and the transaction marked as failed. The prefix
-- "Retry failed: " of the reasons is left out.
unfoldable pub retry_found :
    Gateway
    → (Transaction → String ⊎ String)
    → Bool
    → ℕ
    → PaymentProvider
    → PaymentError
    → Transaction
    → Db
    → PaymentError × (Result Bool × Db)
unfolding attempt increment_retry_count
retry_found g initialize_payment has_contact now provider e t db =
    elim (get_provider_error g provider) [
      | some m ↦ (e, (fail_row now (some m) t >> pure false) db)
      | none ↦ (increment_retry_count e, attempt initialize_payment has_contact now t db)
    ]

-- The error's row and its transaction; the result is that of the call.
unfoldable pub retry_failed_payment :
    Gateway
    → (Transaction → String ⊎ String)
    → Bool
    → ℕ
    → PaymentProvider
    → PaymentError
    → Db
    → PaymentError × (Result Bool × Db)
unfolding can_be_retried retry_found
retry_failed_payment g initialize_payment has_contact now provider e db =
    if not (can_be_retried e)
    then (e, (ok false, db))
    else elim (find_first (transaction_is e.transaction) db.transactions) [
      | none ↦ (e, (err does_not_exist, db))
      | some t ↦ retry_found g initialize_payment has_contact now provider e t db
    ]
