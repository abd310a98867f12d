-- ===== src/Utilities.antt =====
-- core/common/models/payments/utility_provider.py, and the functions of
-- core/common/includes/utilities.py that stand for the providers' services.
pub mod Payment
pub mod Refused
pub mod Automated
pub mod Setup
mod Tests
use Prim.Native.String.{String}
use text.Mathlib.Text.{◌==◌}
use clustr_be.Base.{ℕ, Bool, true, ◌&&◌, ◌||◌, Option, none, some, List, [], ◌∷◌, if◌then◌else◌}
use clustr_be.Base.Int.{ℤ, leb_ℤ}
use clustr_be.Base.Keywords.{codes, is_within}
use clustr_be.Base.Texts.{holds_text}
use clustr_be.Payments.Store.{Result, ok, err, unsupported_provider}
use clustr_be.Payments.Webhook.{PaymentProvider, paystack, flutterwave, bank_transfer, cash}

pub record UtilityProvider : Type 0 where
  pub id : ℕ
  pub cluster : ℕ
  pub api_provider : PaymentProvider
  pub provider_code : String
  pub minimum_amount : ℤ
  pub maximum_amount : ℤ

unfoldable pub is_amount_valid : UtilityProvider → ℤ → Bool
is_amount_valid u amount = leb_ℤ u.minimum_amount amount && leb_ℤ amount u.maximum_amount

-- The keyword arguments that a caller passes on, and `kwargs.get`.
abbrev pub Params : Type 0
Params = List (String × String)

abbrev pub get_param : String → Params → Option String
get_param key [] = none
get_param key ((k, v) ∷ params) = if k == key then some v else get_param key params

-- The answer to a validation or a query of a customer.
pub record CustomerInfo : Type 0 where
  pub success : Bool
  pub customer_id : String
  pub provider_code : String

abbrev pub mock_customer : String → String → CustomerInfo
mock_customer customer code = record {
  success = true;
  customer_id = customer;
  provider_code = code;
}

-- `validate_paystack_customer` and `validate_flutterwave_customer` answer alike.
unfoldable pub validate_customer : PaymentProvider → String → String → Result CustomerInfo
validate_customer paystack customer code = ok (mock_customer customer code)
validate_customer flutterwave customer code = ok (mock_customer customer code)
validate_customer bank_transfer customer code = err unsupported_provider
validate_customer cash customer code = err unsupported_provider

-- The answer of a purchase. The number that the service gives it, which is the time of day, and
-- the units, the amount divided by a price, are left out.
pub record Purchase : Type 0 where
  pub success : Bool
  pub reference : ℕ
  pub amount : ℤ
  pub customer_id : String
  pub provider_code : String
  pub metadata : Params
  pub token : Option String
  pub bundle : Option String

abbrev pub is_service : String → String → String → Params → Bool
is_service word service code params =
    is_within (codes word) (codes code) || holds_text service (get_param "service_type" params)

abbrev pub or_default : String → Option String → String
or_default a none = a
or_default a (some b) = b

-- `purchase_paystack_utility` and `purchase_flutterwave_utility`, which differ in the token and
-- in the name of the bundle that stands for none.
unfoldable pub purchase_mock : String → String → String → ℤ → String → ℕ → Params → Purchase
purchase_mock token bundle customer amount code reference params = record {
  success = true;
  reference = reference;
  amount = amount;
  customer_id = customer;
  provider_code = code;
  metadata = params;
  token = if is_service "electric" "electricity" code params then some token else none;
  bundle =
      if is_service "data" "internet" code params
      then some (or_default bundle (get_param "bundle_code" params))
      else none;
}

unfoldable pub purchase_utility :
    PaymentProvider → String → ℤ → String → ℕ → Params → Result Purchase
unfolding purchase_mock
purchase_utility paystack customer amount code reference params = ok (
    purchase_mock "0123-4567-8901-2345-6789" "Default Bundle" customer amount code reference params)
purchase_utility flutterwave customer amount code reference params = ok (
    purchase_mock "9876-5432-1098-7654-3210" "Default Data Plan" customer amount code reference
      params)
purchase_utility bank_transfer customer amount code reference params = err unsupported_provider
purchase_utility cash customer amount code reference params = err unsupported_provider

pub data Service : Type 0 where
  electricity water internet other_service : Service

-- The names and codes of the providers.
abbrev pub mock_providers : Service → List (String × String)
mock_providers electricity =
    ("Ikeja Electric", "ikeja-electric") ∷ ("Eko Electric", "eko-electric") ∷ []
mock_providers water = ("Lagos Water Corporation", "lagos-water") ∷ []
mock_providers internet = ("MTN Data", "mtn-data") ∷ ("Airtel Data", "airtel-data") ∷ []
mock_providers other_service = []

unfoldable pub get_utility_providers : PaymentProvider → Service → Result (List (String × String))
get_utility_providers paystack service = ok (mock_providers service)
get_utility_providers flutterwave service = ok (mock_providers service)
get_utility_providers bank_transfer service = err unsupported_provider
get_utility_providers cash service = err unsupported_provider
