-- ===== src/Accounts/Login.antt =====
-- accounts/authentication_utils.py: sign-in and the lock on an account.
pub mod Lockout
use Prim.Native.String.{String}
use clustr_be.Base.{
  ℕ, ◌+◌, ◌*◌, Bool, true, false, Option, none, some, List, [], ◌∷◌, leb, ltb, not, if◌then◌else◌,
  find_first, update_first,
}
use clustr_be.Accounts.{
  Account, Accounts, Site, Outcome, done, refused, account_locked, invalid_credentials, account_is,
  email_is,
}

-- `getattr(settings, name, default)`
abbrev pub setting_or : Option ℕ → ℕ → ℕ
setting_or none default = default
setting_or (some n) default = n

-- MAX_LOGIN_ATTEMPTS, and the length of a lock in seconds.
abbrev pub max_attempts : Site → ℕ
max_attempts site = setting_or site.max_login_attempts 5

abbrev pub lockout_duration : Site → ℕ
lockout_duration site = 60 * setting_or site.account_lockout_duration_minutes 30

abbrev pub is_after : Option ℕ → ℕ → Bool
is_after none now = false
is_after (some t) now = ltb now t

unfoldable pub check_account_lockout : ℕ → Account → Bool
check_account_lockout now a = is_after a.account_locked_until now

unfoldable pub handle_failed_login : Site → ℕ → Account → Account
handle_failed_login site now a =
    let n = a.failed_login_attempts + 1 in
    record a {
      last_failed_login = some now;
      failed_login_attempts = n;
      account_locked_until =
          if leb (max_attempts site) n
          then some (now + lockout_duration site)
          else a.account_locked_until;
    }

-- `if ip_address:` fails for the empty text too.
abbrev pub or_kept : Option String → Option String → Option String
or_kept none old = old
or_kept (some String.[]) old = old
or_kept (some ip) old = some ip

unfoldable pub handle_successful_login : Option String → Account → Account
handle_successful_login ip a = record a {
  failed_login_attempts = 0;
  account_locked_until = none;
  last_login_ip = or_kept ip a.last_login_ip;
}

-- The body of `handle_user_login` for the account that was found, up to the tokens.
unfoldable pub login : Site → ℕ → String → Option String → Account → Outcome ℕ × Account
unfolding check_account_lockout handle_failed_login handle_successful_login
login site now password ip a =
    if check_account_lockout now a
    then (refused account_locked, a)
    else if not (site.check_password password a.password)
    then (refused invalid_credentials, handle_failed_login site now a)
    else (done a.id, handle_successful_login ip a)

-- The account that the tokens are for.
unfoldable pub handle_user_login :
    Site → ℕ → String → String → Option String → Accounts → Outcome ℕ × Accounts
unfolding login
handle_user_login site now email password ip db = elim (find_first (email_is email) db.accounts) [
  | none ↦ (refused invalid_credentials, db)
  | some a ↦
      let (r, a') = login site now password ip a in
      (r, record db { accounts = update_first (account_is a.id) (λ _. a') db.accounts })
]
