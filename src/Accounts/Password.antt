-- ===== src/Accounts/Password.antt =====
-- accounts/utils.py: the change of a password, with the history of PreviousPasswords.
pub mod History
use Prim.Native.String.{String}
use clustr_be.Base.{
  ℕ, Bool, true, false, Option, none, some, List, [], ◌∷◌, ◌++◌, leb, not, ◌||◌, if◌then◌else◌, any,
  length,
}
use clustr_be.Accounts.{
  Account, Site, Outcome, done, refused, incorrect_password, password_required, password_used,
  password_refused, no_history,
}

abbrev pub is_empty : String → Bool
is_empty String.[] = true
is_empty _ = false

-- `_validate_current_password`
unfoldable pub validate_current_password : Site → String → String → Account → Outcome (Unit {0})
validate_current_password site current new a =
    if not (site.check_password current a.password)
    then refused incorrect_password
    else if is_empty new
    then refused password_required
    else if site.check_password new a.password
    then refused password_used
    else done tt

-- `_validate_new_password`: to read a history that does not exist raises.
unfoldable pub validate_new_password : Site → String → Account → Outcome (Unit {0})
validate_new_password site new a =
    if site.check_password new a.password
    then refused password_used
    else elim a.previous_passwords [
      | none ↦ refused no_history
      | some hashes ↦
          if any (site.check_password new) hashes
          then refused password_used
          else if not (site.validate_password new a)
          then refused password_refused
          else done tt
    ]

-- `hashes[-n:]`, of a longer list
abbrev pub take_last : ℕ → List String → List String
take_last n [] = []
take_last n (h ∷ hs) = let rest = take_last n hs in if leb (length (h ∷ hs)) n then h ∷ hs else rest

-- The history with one more hash: the last ten, which `PreviousPasswords.save` makes a set.
abbrev pub remember : Site → String → Option (List String) → List String
remember site hash none = site.list_of_set (hash ∷ [])
remember site hash (some hashes) = site.list_of_set (take_last 10 (hashes ++ hash ∷ []))

-- `if current_password:` fails for the empty text too.
abbrev pub given : Option String → Option String
given none = none
given (some String.[]) = none
given (some p) = some p

abbrev pub validate_given : Site → Option String → String → Account → Outcome (Unit {0})
validate_given site none new a = done tt
validate_given site (some current) new a = validate_current_password site current new a

abbrev pub hashed_current : Site → Option String → Account → String
hashed_current site none a = a.password
hashed_current site (some current) a = site.make_password current

-- The row after the password was set.
abbrev pub with_password : Site → Option String → String → Account → Account
with_password site current new a = record a {
  password = site.make_password new;
  failed_login_attempts = 0;
  account_locked_until = none;
  previous_passwords = some (remember site (hashed_current site current a) a.previous_passwords);
}

unfoldable pub change_password :
    Site → Option String → String → Account → Outcome (Unit {0}) × Account
unfolding validate_current_password validate_new_password
change_password site current new a = elim (validate_given site (given current) new a) [
  | refused e ↦ (refused e, a)
  | done _ ↦ elim (validate_new_password site new a) [
    | refused e ↦ (refused e, a)
    | done _ ↦ (done tt, with_password site (given current) new a)
  ]
]
