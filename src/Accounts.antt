-- ===== src/Accounts.antt =====
-- The rows of accounts/models/users.py and email_verification.py that sign-in and password changes
-- read and write, and what they take from outside.
pub mod Login
pub mod Password
pub mod Reset
mod Tests
use Prim.Native.String.{String}
use clustr_be.Base.{ℕ, Bool, Option, List, ◌==◌}
use clustr_be.Base.Texts.{same_text}

-- A password column holds a hash. An instant is a number of seconds. The history is the row of
-- PreviousPasswords, if there is one.
pub record Account : Type 0 where
  pub id : ℕ
  pub email_address : String
  pub password : String
  pub primary_cluster : Option ℕ
  pub is_verified : Bool
  pub failed_login_attempts : ℕ
  pub last_failed_login : Option ℕ
  pub account_locked_until : Option ℕ
  pub last_login_ip : Option String
  pub previous_passwords : Option (List String)

-- The values of `notification_event` that the code compares it with, and every other.
pub data NotificationType : Type 0 where
  email_verification_otp email_verification_token other_notification : NotificationType

pub record UserVerification : Type 0 where
  pub id : ℕ
  pub otp : Option String
  pub token : Option String
  pub notification_event : NotificationType
  pub requested_at : ℕ
  pub requested_by : ℕ
  pub is_used : Bool

-- The tables. Verifications stand in their default order, the latest request first.
pub record Accounts : Type 0 where
  pub accounts : List Account
  pub verifications : List UserVerification

-- The settings that may be missing, Django's password hashing and validation, its Signer, whose
-- `unsign` may raise, and the order in which Python lists the members of a set.
pub record Site : Type 0 where
  pub max_login_attempts : Option ℕ
  pub account_lockout_duration_minutes : Option ℕ
  pub check_password : String → String → Bool
  pub make_password : String → String
  pub validate_password : String → Account → Bool
  pub unsign : String → Option String
  pub list_of_set : List String → List String

pub data AccountError : Type 0 where
  account_locked invalid_credentials : AccountError
  incorrect_password password_used password_required password_refused : AccountError
  no_history no_token token_expired bad_signature missing_field : AccountError

pub data Outcome (A : Type 0) : Type 0 where
  done : A → Outcome A
  refused : AccountError → Outcome A

abbrev pub account_is : ℕ → Account → Bool
account_is i a = a.id == i

abbrev pub email_is : String → Account → Bool
email_is e a = same_text a.email_address e

abbrev pub verification_is : ℕ → UserVerification → Bool
verification_is i v = v.id == i
