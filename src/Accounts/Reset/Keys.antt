-- ===== src/Accounts/Reset/Keys.antt =====
-- Which keys reset which password.
use Prim.Native.String.{String, count}
use clustr_be.Base.{
  ℕ, ◌≤◌, ◌≡◌, ◌⊎◌, ◌==◌, true, false, ◌&&◌, none, some, List, ◌∷◌, arith, not, find_first,
  update_first, inl, inr, Bool-cases, Option-cases,
}
use clustr_be.Base.Lists.{find_first-passes, find_first-update_other}
use clustr_be.Base.Texts.{holds_text}
use clustr_be.Accounts.{
  Account, Accounts, Site, done, UserVerification, account_is, verification_is,
}
use clustr_be.Accounts.Password.{change_password}
use clustr_be.Accounts.Reset.{
  otp_max_length, is_expired, infer_signed_token, run_verification_key_checks, mark_as_verified,
  reset_password, change_for, save_account, use_up, get_verification, reset_member_password,
}

run_checks_short :
    (site : Site) (now : ℕ) (key : String) (v : UserVerification) (vs : List UserVerification)
    (db : Accounts)
    → db.verifications ≡ v ∷ vs
    → v.token ≡ none
    → is_expired now v ≡ false
    → count key ≤ otp_max_length
    → run_verification_key_checks site now key db ≡ done v
unfolding run_verification_key_checks infer_signed_token
run_checks_short site now key v vs db e t f le = ground arith

-- Where the latest verification was asked for by code and is fresh, every key of at most five
-- characters, right or wrong, resets the password of the user who asked for it, if the new password
-- is accepted.
pub reset_password-any_key :
    (site : Site) (now : ℕ) (key new : String) (v : UserVerification) (vs : List UserVerification)
    (a a' : Account) (db : Accounts)
    → db.verifications ≡ v ∷ vs
    → v.token ≡ none
    → is_expired now v ≡ false
    → count key ≤ otp_max_length
    → find_first (account_is v.requested_by) db.accounts ≡ some a
    → change_password site none new a ≡ (done tt, a')
    → reset_password site now key new db ≡ (done tt, mark_as_verified v (save_account a' db))
unfolding reset_password
reset_password-any_key site now key new v vs a a' db e t f le ea ec =
    ground (arith, run_checks_short site now key v vs db e t f le)

change_password-id :
    (site : Site) (new : String) (a : Account) → (change_password site none new a).1.id ≡ a.id
unfolding change_password
change_password-id site new a = ground arith

-- A reset that goes through touches the row of one account.
change_for-other :
    (site : Site) (new : String) (v w : UserVerification) (i : ℕ) (db : Accounts)
    → (i ≡ v.requested_by)
      ⊎ (find_first (account_is i) (change_for site new v (use_up w) db).1.accounts
          ≡ find_first (account_is i) db.accounts)
change_for-other site new v w i db =
    elim (Option-cases (find_first (account_is v.requested_by) db.accounts)) [
      | inl e ↦ inr (ground arith)
      | inr (a, e) ↦ elim (Bool-cases (v.requested_by == i)) [
        | inl same ↦ inl (ground arith)
        | inr other ↦ inr (
            ground (
              arith,
              find_first-passes (account_is v.requested_by) a db.accounts e,
              change_password-id site new a,
              find_first-update_other (account_is i) (account_is v.requested_by) a
                  (change_password site none new a).1 db.accounts e,
            ))
      ]
    ]

-- A reset by a member's code, a key of at most five characters, that goes through used the first
-- verification in the table that has this code and is not used; this verification is not older than
-- two hours, it is marked as used, and the row of no account changed but that of the user who asked
-- for it.
pub reset_member_password-code :
    (site : Site) (now : ℕ) (key new : String) (i : ℕ) (db : Accounts)
    → count key ≤ otp_max_length
    → (reset_member_password site now key new db).0 ≡ done tt
    → (v : UserVerification) × (find_first
          (λ w. holds_text key w.otp && not w.is_used)
          db.verifications
        ≡ some v)
      × (is_expired now v ≡ false)
      × ((reset_member_password site now key new db).1.verifications
          ≡ update_first (verification_is v.id) (λ _. record v { is_used = true }) db.verifications)
      × ((i ≡ v.requested_by)
          ⊎ (find_first (account_is i) (reset_member_password site now key new db).1.accounts
              ≡ find_first (account_is i) db.accounts))
unfolding reset_member_password get_verification
reset_member_password-code site now key new i db le h =
    let p = λ (v : UserVerification). holds_text key v.otp && not v.is_used in
    elim (Option-cases (find_first p db.verifications)) [
      | inl e ↦ absurd (ground arith)
      | inr (v, e) ↦
          (v, e, ground arith, ground arith, ground (arith, change_for-other site new v v i db))
    ]
