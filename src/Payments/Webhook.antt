-- ===== src/Payments/Webhook.antt =====
-- The functions of core/common/includes/payments.py on the webhooks of the payment providers. A
-- transaction's reference (`transaction_id`, which is unique) is its identifier, and 0 is the empty
-- reference.
pub mod Outcomes
mod Tests
use Prim.Native.String.{String}
use clustr_be.Base.{ℕ, Bool, true, false, Option, none, some, not, if◌then◌else◌, find_first}
use clustr_be.Payments.Types.{Transaction, failed}
use clustr_be.Payments.Store.{
  Action, pure, raise, atomic, gets, ◌>>=◌, ◌>>◌, get_transaction, save_transaction, transaction_is,
  payment_error,
}
use clustr_be.Payments.Bills.{is_given}

pub data PaymentProvider : Type 0 where
  paystack flutterwave bank_transfer cash : PaymentProvider

-- The texts that the code compares `event` with, and every other.
pub data EventType : Type 0 where
  charge_success charge_completed other_event : EventType

-- What the code reads of a webhook: `event`, `data.reference` and `data.tx_ref`.
pub record Payload : Type 0 where
  pub event : Option EventType
  pub reference : Option ℕ
  pub tx_ref : Option ℕ

-- The libraries json and hmac, the settings, and the error of a provider's constructor that
-- raises.
pub record Gateway : Type 0 where
  pub loads : String → Option Payload
  pub hmac_sha512 : String → String → String
  pub compare_digest : String → String → Bool
  pub paystack_secret_key : Option String
  pub flutterwave_secret_hash : Option String
  pub paystack_error : Option String
  pub flutterwave_error : Option String

-- `_verify_provider_signature`: a setting that is missing raises, and that is a refusal.
unfoldable pub verify_provider_signature : Gateway → PaymentProvider → String → String → Bool
verify_provider_signature g paystack payload signature = elim g.paystack_secret_key [
  | none ↦ false
  | some key ↦ g.compare_digest signature (g.hmac_sha512 key payload)
]
verify_provider_signature g flutterwave payload signature = elim g.flutterwave_secret_hash [
  | none ↦ false
  | some hash ↦ g.compare_digest signature hash
]
verify_provider_signature g bank_transfer payload signature = true
verify_provider_signature g cash payload signature = true

abbrev pub is_charge_success : Option EventType → Bool
is_charge_success (some charge_success) = true
is_charge_success _ = false

abbrev pub is_charge_completed : Option EventType → Bool
is_charge_completed (some charge_completed) = true
is_charge_completed _ = false

-- The reference that is looked up, per provider.
unfoldable pub reference_of : PaymentProvider → Payload → Option ℕ
reference_of paystack d = if is_charge_success d.event then d.reference else none
reference_of flutterwave d = if is_charge_completed d.event then d.tx_ref else none
reference_of bank_transfer d = none
reference_of cash d = none

-- `PaymentProviderFactory.get_provider`: the message of its error, if it raises.
abbrev pub get_provider_error : Gateway → PaymentProvider → Option String
get_provider_error g paystack = g.paystack_error
get_provider_error g flutterwave = g.flutterwave_error
get_provider_error g bank_transfer = some "name 'PaymentProviderError' is not defined"
get_provider_error g cash = some "name 'PaymentProviderError' is not defined"

-- The exception that ends the body of `verify_payment`: no provider, or else the reading of
-- `transaction.provider_reference`, which the model Transaction does not have.
abbrev pub verify_error : Gateway → PaymentProvider → String
verify_error g provider = elim (get_provider_error g provider) [
  | some e ↦ e
  | none ↦ "'Transaction' object has no attribute 'provider_reference'"
]

-- The rest of the body of `verify_payment` is not reached.
unfoldable pub verify_payment : Gateway → PaymentProvider → ℕ → Action Bool
verify_payment g provider i = atomic (do
  t ← get_transaction i
  save_transaction (record t { status = failed; failure_reason = some (verify_error g provider) })
  pure false)

-- `initialize` reads `transaction.payment_provider`, which the model does not have either: the
-- transaction is saved as failed, outside of any `atomic`, and a `PaymentError` is raised.
unfoldable pub initialize : ℕ → Action (Unit {0})
initialize i = do
  t ← get_transaction i
  save_transaction (record t {
    status = failed;
    failure_reason = some "'Transaction' object has no attribute 'payment_provider'";
  })
  raise payment_error

-- A transaction that was found.
unfoldable pub process_found : Gateway → PaymentProvider → Option Transaction → Action (Option ℕ)
process_found g provider none = pure none
process_found g provider (some t) = do
  verified ← verify_payment g provider t.id
  pure (if verified then some t.id else none)

-- A webhook with a good signature. An event without a reference, or with an empty one, is passed
-- over.
unfoldable pub process_signed : Gateway → PaymentProvider → Option ℕ → Action (Option ℕ)
process_signed g provider none = pure none
process_signed g provider (some i) =
    if not (is_given (some i))
    then pure none
    else (gets (λ db. find_first (transaction_is i) db.transactions) >>= λ t.
        process_found g provider t)

unfoldable pub process_webhook : Gateway → PaymentProvider → String → String → Action (Option ℕ)
process_webhook g provider payload signature = atomic (elim (g.loads payload) [
  | none ↦ pure none
  | some d ↦
      if not (verify_provider_signature g provider payload signature)
      then pure none
      else process_signed g provider (reference_of provider d)
])
