-- ===== src/Accounts/Tests.antt =====
-- An account, runs of the code on it, and the theorems at it.
use clustr_be.Base.{
  ℕ, ◌≡◌, ◌⊎◌, ◌&&◌, not, refl, true, false, none, some, List, [], ◌∷◌, arith, find_first,
  update_first,
}
use clustr_be.Base.Texts.{same_text, holds_text}
use clustr_be.Accounts.{
  Account, Accounts, Site, UserVerification, other_notification, done, refused, account_locked,
  password_used, account_is, verification_is,
}
use clustr_be.Accounts.Login.{handle_failed_login, handle_user_login}
use clustr_be.Accounts.Login.Lockout.{Attempt, guesses}
use clustr_be.Accounts.Password.{change_password, with_password}
use clustr_be.Accounts.Password.History.{change_password-refused}
use clustr_be.Accounts.Reset.{
  is_expired, mark_as_verified, save_account, reset_password, reset_member_password,
}
use clustr_be.Accounts.Reset.Keys.{reset_password-any_key, reset_member_password-code}

-- A hash is the password itself, and a set keeps the order of its list.
abbrev site : Site
site = record {
  max_login_attempts = none;
  account_lockout_duration_minutes = none;
  check_password = λ p h. same_text p h;
  make_password = λ p. p;
  validate_password = λ p a. true;
  unsign = λ key. none;
  list_of_set = λ hashes. hashes;
}

abbrev ada : Account
ada = record {
  id = 5;
  email_address = "ada@estate.ng";
  password = "lovelace";
  primary_cluster = some 1;
  is_verified = true;
  failed_login_attempts = 3;
  last_failed_login = none;
  account_locked_until = none;
  last_login_ip = none;
  previous_passwords = some [];
}

abbrev code : UserVerification
code = record {
  id = 70;
  otp = some "12345";
  token = none;
  notification_event = other_notification;
  requested_at = 1000;
  requested_by = 5;
  is_used = false;
}

abbrev members : Accounts
members = record { accounts = ada ∷ []; verifications = code ∷ [] }

abbrev wrong : ℕ → Attempt
wrong t = record { time = t; password = "byron" }

abbrev tries : List Attempt
tries = wrong 100 ∷ wrong 101 ∷ wrong 102 ∷ wrong 1000 ∷ []

-- Two attempts were left.
two_guesses : (guesses site tries ada).0 ≡ 2
unfolding guesses handle_failed_login
two_guesses = refl

abbrev locked_members : Accounts
locked_members = record members { accounts = record ada { account_locked_until = some 2000 } ∷ [] }

-- Locked, the right password is refused too.
locked_out :
    (handle_user_login site 103 "ada@estate.ng" "lovelace" none locked_members).0
    ≡ refused account_locked
unfolding handle_user_login
locked_out = refl

abbrev changed : Account
changed = with_password site none "babbage" ada

changed_runs : change_password site none "babbage" ada ≡ (done tt, changed)
unfolding change_password
changed_runs = refl

change_password-refused_example :
    change_password site none "lovelace" changed ≡ (refused password_used, changed)
change_password-refused_example =
    change_password-refused site "babbage" "lovelace" ada changed (λ h hs. refl) changed_runs refl

code_is_fresh : is_expired 2000 code ≡ false
unfolding is_expired
code_is_fresh = refl

-- The key "0" is no code that was ever sent.
reset_password-any_key_example :
    reset_password site 2000 "0" "babbage" members
    ≡ (done tt, mark_as_verified code (save_account changed members))
reset_password-any_key_example =
    reset_password-any_key site 2000 "0" "babbage" code [] ada changed members refl refl
      code_is_fresh (omega arith) refl changed_runs

member_reset : (reset_member_password site 2000 "12345" "babbage" members).0 ≡ done tt
unfolding reset_member_password change_password
member_reset = refl

member_refused :
    (reset_member_password site 2000 "0" "babbage" members).0 ≡ refused clustr_be.Accounts.no_token
unfolding reset_member_password
member_refused = refl

reset_member_password-code_example :
    (v : UserVerification) × (find_first
        (λ w. holds_text "12345" w.otp && not w.is_used)
        members.verifications
      ≡ some v)
    × (is_expired 2000 v ≡ false)
    × ((reset_member_password site 2000 "12345" "babbage" members).1.verifications
        ≡ update_first
            (verification_is v.id)
            (λ _. record v { is_used = true })
            members.verifications)
    × ((6 ≡ v.requested_by)
        ⊎ (find_first
              (account_is 6)
              (reset_member_password site 2000 "12345" "babbage" members).1.accounts
            ≡ none))
reset_member_password-code_example =
    reset_member_password-code site 2000 "12345" "babbage" 6 members (omega arith) member_reset
