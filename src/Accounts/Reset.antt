-- ===== src/Accounts/Reset.antt =====
-- The two ways to reset a password: accounts/views/auth.py and members/views_password.py, with the
-- methods of UserVerification that they call.
pub mod Keys
use Prim.Native.String.{String, count}
use clustr_be.Base.{
  ℕ, ◌+◌, Bool, true, false, ◌&&◌, ◌||◌, Option, none, some, List, leb, ltb, not, is_some,
  if◌then◌else◌, find_first, update_first,
}
use clustr_be.Base.Texts.{holds_text}
use clustr_be.Accounts.{
  Account, Accounts, Site, Outcome, done, refused, UserVerification, NotificationType,
  email_verification_otp, email_verification_token, account_is, verification_is, no_token,
  token_expired, bad_signature, missing_field,
}
use clustr_be.Accounts.Password.{is_empty, change_password}

abbrev pub otp_max_length : ℕ
otp_max_length = 5

-- Used, or older than two hours.
unfoldable pub is_expired : ℕ → UserVerification → Bool
is_expired now v = v.is_used || ltb (v.requested_at + 7200) now

abbrev pub is_email_event : NotificationType → Bool
is_email_event email_verification_otp = true
is_email_event email_verification_token = true
is_email_event _ = false

abbrev pub save_account : Account → Accounts → Accounts
save_account a db = record db { accounts = update_first (account_is a.id) (λ _. a) db.accounts }

-- The write of `is_used` to the row of a verification.
abbrev pub use_up : UserVerification → Accounts → Accounts
use_up v db = record db {
  verifications =
      update_first (verification_is v.id) (λ _. record v { is_used = true }) db.verifications;
}

-- The write of `is_verified` to the row of the account.
abbrev pub verify_account : ℕ → Accounts → Accounts
verify_account i db = elim (find_first (account_is i) db.accounts) [
  | none ↦ db
  | some a ↦ save_account (record a { is_verified = true }) db
]

unfoldable pub mark_as_verified : UserVerification → Accounts → Accounts
mark_as_verified v db =
    use_up v (if is_email_event v.notification_event then verify_account v.requested_by db else db)

-- `_infer_signed_token`: a short key is no token.
unfoldable pub infer_signed_token : Site → String → Outcome (Option String)
infer_signed_token site key =
    if leb (count key) otp_max_length
    then done none
    else elim (site.unsign key) [ none ↦ refused bad_signature | some t ↦ done (some t) ]

-- `Q(token=token)`: the lookup of None is the test that the column is null.
abbrev pub token_is : Option String → UserVerification → Bool
token_is none v = not (is_some v.token)
token_is (some t) v = holds_text t v.token

-- `Q(otp=verification_key) | Q(token=token)`
abbrev pub has_key : String → Option String → UserVerification → Bool
has_key key token v = holds_text key v.otp || token_is token v

-- The checks of the verification that was found.
abbrev pub or_fresh : ℕ → Option UserVerification → Outcome UserVerification
or_fresh now none = refused no_token
or_fresh now (some v) = if is_expired now v then refused token_expired else done v

-- `_run_verification_key_checks`
unfoldable pub run_verification_key_checks : Site → ℕ → String → Accounts → Outcome UserVerification
unfolding infer_signed_token is_expired
run_verification_key_checks site now key db = elim (infer_signed_token site key) [
  | refused e ↦ refused e
  | done token ↦ or_fresh now (find_first (has_key key token) db.verifications)
]

-- The change of the password of the account behind a verification. A foreign key leads to a row.
abbrev pub change_for :
    Site
    → String
    → UserVerification
    → (Accounts → Accounts)
    → Accounts
    → Outcome (Unit {0}) × Accounts
change_for site new v after db = elim (find_first (account_is v.requested_by) db.accounts) [
  | none ↦ (refused no_token, db)
  | some a ↦
      let (r, a') = change_password site none new a in
      elim r [ refused e ↦ (refused e, db) | done _ ↦ (done tt, after (save_account a' db)) ]
]

-- `ResetPasswordAPIView.post`
unfoldable pub reset_password :
    Site → ℕ → String → String → Accounts → Outcome (Unit {0}) × Accounts
unfolding run_verification_key_checks mark_as_verified
reset_password site now key new db = elim (run_verification_key_checks site now key db) [
  | refused e ↦ (refused e, db)
  | done v ↦ change_for site new v (mark_as_verified v) db
]

-- `ResetPasswordView._get_verification`, of members/views_password.py
unfoldable pub get_verification : Site → String → List UserVerification → Option UserVerification
get_verification site key vs =
    if leb (count key) otp_max_length
    then find_first (λ v. holds_text key v.otp && not v.is_used) vs
    else elim (site.unsign key) [
      | some t ↦ find_first (λ v. holds_text t v.token && not v.is_used) vs
      | none ↦ find_first (λ v. holds_text key v.token && not v.is_used) vs
    ]

-- `ResetPasswordView.post`
unfoldable pub reset_member_password :
    Site → ℕ → String → String → Accounts → Outcome (Unit {0}) × Accounts
unfolding get_verification is_expired
reset_member_password site now key new db =
    if is_empty key || is_empty new
    then (refused missing_field, db)
    else elim (or_fresh now (get_verification site key db.verifications)) [
      | refused e ↦ (refused e, db)
      | done v ↦ change_for site new v (use_up v) db
    ]
