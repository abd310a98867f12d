-- ===== src/Utilities/Refused.antt =====
-- When a payment to a utility succeeds, and what it leaves behind.
use Prim.Native.String.{String}
use clustr_be.Base.{
  ℕ, ◌≡◌, refl, ◌⊎◌, inl, inr, Bool, true, false, Option, some, arith, find_first, Option-cases,
  not, if◌then◌else◌,
}
use clustr_be.Base.Int.{ℤ}
use clustr_be.Base.Lists.{find_first-passes}
use clustr_be.Payments.Types.{Wallet, Transaction}
use clustr_be.Payments.Store.{Db, Error, Result, ok, err, wallet_is, get_wallet, ◌>>=◌, ◌>>◌}
use clustr_be.Payments.Wallet.{has_sufficient_balance}
use clustr_be.Payments.Bills.{is_duplicate}
use clustr_be.Utilities.{UtilityProvider, Params, is_amount_valid}
use clustr_be.Utilities.Payment.{
  Json, Answer, is_success, insufficient_wallet, invalid_limits, already_processed, bill_of,
  freeze_and_purchase, utility_row_payment, process_utility_payment,
}

-- The answer is a failure, or names a transaction that stood under the key before.
abbrev pub IsReplay : Option ℕ → ℕ → Db → Answer → Type 0
IsReplay key wallet db a =
    (is_success a ≡ false)
    ⊎ ((t : Transaction) × (find_first (is_duplicate key wallet) db.transactions ≡ some t)
        × (a ≡ already_processed t.id (bill_of t.id db)))

-- A result that is no success, in a state with the same bills.
abbrev IsFailure : Db → Result Answer × Db → Type 0
IsFailure db (ok a, db') = (is_success a ≡ false) × (db'.bills ≡ db.bills)
IsFailure db (err e, db') = db'.bills ≡ db.bills

freeze_and_purchase-IsFailure :
    (j : Json) (str : Error → String) (now user : ℕ) (u : UtilityProvider) (customer : String)
    (x : ℤ) (w : Wallet) (key : Option ℕ) (params : Params) (db : Db)
    → IsFailure db (freeze_and_purchase j str now user u customer x w key params db)
unfolding freeze_and_purchase ◌>>=◌ ◌>>◌
freeze_and_purchase-IsFailure j str now user u customer x w key params db = ground arith

abbrev IsReplayResult : Option ℕ → ℕ → Db → Result Answer → Type 0
IsReplayResult key wallet db (ok a) = IsReplay key wallet db a
IsReplayResult key wallet db (err e) = Unit

of_IsFailure :
    (key : Option ℕ) (wallet : ℕ) (db : Db) (r : Result Answer × Db)
    → IsFailure db r
    → (r.1.bills ≡ db.bills) × IsReplayResult key wallet db r.0
of_IsFailure key wallet db (ok a, db') h = (h.1, inl h.0)
of_IsFailure key wallet db (err e, db') h = (h, tt)

abbrev KeepsBills : Option ℕ → ℕ → Db → Result Answer × Db → Type 0
KeepsBills key wallet db r = (r.1.bills ≡ db.bills) × IsReplayResult key wallet db r.0

-- The guards in front of a payment.
guards_keep :
    (a b : Bool) (key : Option ℕ) (wallet : ℕ) (db : Db) (r : Result Answer × Db)
    → KeepsBills key wallet db r
    → KeepsBills key wallet db
        (if a then (ok insufficient_wallet, db) else if b then (ok invalid_limits, db) else r)
guards_keep true b key wallet db r h = (refl, inl refl)
guards_keep false true key wallet db r h = (refl, inl refl)
guards_keep false false key wallet db r h = h

-- What the answer and the bills are for a wallet that was loaded.
row_payment :
    (j : Json) (str : Error → String) (now user : ℕ) (u : UtilityProvider) (customer : String)
    (x : ℤ) (w : Wallet) (key : Option ℕ) (params : Params) (db : Db)
    → KeepsBills key w.id db (utility_row_payment j str now user u customer x w key params db)
unfolding utility_row_payment
row_payment j str now user u customer x w key params db =
    let r = freeze_and_purchase j str now user u customer x w key params db in
    let guarded =
      guards_keep (not (has_sufficient_balance w x)) (not (is_amount_valid u x)) key w.id db in
    elim (Option-cases (find_first (is_duplicate key w.id) db.transactions)) [
      | inl e ↦ rw e (
          guarded r (
            of_IsFailure key w.id db r
              (freeze_and_purchase-IsFailure j str now user u customer x w key params db)))
      | inr (t, e) ↦
          rw e
            (guarded (ok (already_processed t.id (bill_of t.id db)), db) (refl, inr (t, e, refl)))
    ]

-- A payment to a utility records no bill, and whoever pays with whatever parameters, it reports
-- a success only for a transaction of the wallet that stood under the key before the call.
pub process_utility_payment-IsReplay :
    (j : Json) (str : Error → String) (now user wallet : ℕ) (u : UtilityProvider)
    (customer : String) (x : ℤ) (key : Option ℕ) (params : Params) (db : Db)
    → let (a, db') = process_utility_payment j str now user u customer x wallet key params db in
      (db'.bills ≡ db.bills) × IsReplay key wallet db a
unfolding process_utility_payment get_wallet ◌>>=◌
process_utility_payment-IsReplay j str now user wallet u customer x key params db =
    elim (Option-cases (find_first (wallet_is wallet) db.wallets)) [
      | inl e ↦ ground arith
      | inr (w, e) ↦ ground (
        arith,
        find_first-passes (wallet_is wallet) w db.wallets e,
        row_payment j str now user u customer x w key params db,
      )
    ]

-- A payment to a utility leaves the whole state as it was, whatever it answers.
pub process_utility_payment_keeps :
    (j : Json) (str : Error → String) (now user wallet : ℕ) (u : UtilityProvider)
    (customer : String) (x : ℤ) (key : Option ℕ) (params : Params) (db : Db)
    → (process_utility_payment j str now user u customer x wallet key params db).1 ≡ db
unfolding process_utility_payment freeze_and_purchase utility_row_payment get_wallet ◌>>=◌ ◌>>◌
process_utility_payment_keeps j str now user wallet u customer x key params db = ground arith
