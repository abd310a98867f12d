-- ===== src/Accounts/Login/Lockout.antt =====
-- What the lock on an account promises.
use Prim.Native.String.{String}
use clustr_be.Base.{
  ℕ, ◌+◌, ◌≤◌, ◌<◌, ◌≡◌, ◌⊎◌, ◌↔◌, true, false, ◌&&◌, Option, none, List, [], ◌∷◌, arith, not,
  if◌then◌else◌,
}
use clustr_be.Accounts.{Account, Site, done}
use clustr_be.Accounts.Login.{lockout_duration, check_account_lockout, handle_failed_login, login}

-- An attempt to sign in: its time, and the password.
pub record Attempt : Type 0 where
  pub time : ℕ
  pub password : String

-- The account after some attempts, and how many of the passwords were compared with its own.
unfoldable pub guesses : Site → List Attempt → Account → ℕ × Account
unfolding login check_account_lockout
guesses site [] a = (0, a)
guesses site (t ∷ ts) a =
    let rest = guesses site ts (login site t.time t.password none a).1 in
    if check_account_lockout t.time a then rest else (rest.0 + 1, rest.1)

-- Wrong passwords at times from `start` on, for less than the length of a lock.
abbrev pub AreWrong : Site → ℕ → String → List Attempt → Type 0
AreWrong site start hash [] = Unit
AreWrong site start hash (t ∷ ts) =
    (site.check_password t.password hash ≡ false)
    × (start ≤ t.time)
    × (t.time < start + lockout_duration site)
    × AreWrong site start hash ts

-- A sign-in succeeds exactly if the account is not locked and the password is right; then the
-- failures are forgotten. A wrong password counts one more failure, and while the account is
-- locked nothing changes, whatever the password.
pub login_outcome :
    (site : Site) (now : ℕ) (password : String) (ip : Option String) (a : Account)
    → let (r, a') = login site now password ip a in
      let locked = check_account_lockout now a in
      let right = site.check_password password a.password in
      ((r ≡ done a.id) ↔ ((not locked && right) ≡ true))
      × (a'.failed_login_attempts ≡ (
          if locked
          then a.failed_login_attempts
          else if right
          then 0
          else a.failed_login_attempts + 1))
      × ((locked ≡ false) ⊎ (a' ≡ a))
      × (a'.password ≡ a.password)
unfolding login handle_failed_login
login_outcome site now password ip a = ground arith
