-- ===== src/Utilities/Automated.antt =====
-- A recurring payment to a utility, with the service that it calls: `RecurringPayment.process_payment`
-- (recurring_payment.py) and `process_utility_payment` (core/common/includes/utilities.py).
use Prim.Native.String.{String}
use clustr_be.Base.{
  ℕ, ◌<◌, ◌≡◌, refl, inl, inr, Bool, true, false, ◌&&◌, ◌||◌, ◌⊎◌, Bool-cases, find_first, Option,
  not, none, some, List, [], ◌∷◌, arith, length, if◌then◌else◌, is_some,
}
use clustr_be.Payments.Types.{Wallet}
use clustr_be.Payments.Bills.{is_duplicate}
use clustr_be.Payments.Store.{Db, Error}
use clustr_be.Payments.Wallet.{has_sufficient_balance}
use clustr_be.Recurring.{
  RecurringPayment, Calendar, active, is_active, is_utility_payment, is_over_limit, process_payment,
}
use clustr_be.Recurring.Failures.{fail_times, AfterFailures, fail_times-AfterFailures}
use clustr_be.Utilities.{UtilityProvider, Params, get_param}
use clustr_be.Utilities.Payment.{Json, is_success, process_utility_payment}
use clustr_be.Utilities.Refused.{process_utility_payment-IsReplay, process_utility_payment_keeps}

-- What the columns of a recurring payment and its provider give the call. The metadata is passed on
-- as keyword arguments: the entry `idempotency_key` becomes that argument, and the others are
-- `metadata`.
pub record Subscription : Type 0 where
  pub provider : UtilityProvider
  pub customer_id : String
  pub idempotency_key : Option ℕ
  pub metadata : Params

-- A name that the call gives already raises `TypeError`.
abbrev pub has_clash : Params → Bool
has_clash params =
    is_some (get_param "user_id" params)
    || (is_some (get_param "utility_provider" params)
        || (is_some (get_param "customer_id" params)
            || (is_some (get_param "amount" params)
                || (is_some (get_param "wallet" params)
                    || is_some (get_param "description" params)))))

-- Whether a run comes to the call of the service.
unfoldable pub calls_service : Wallet → RecurringPayment → Bool
calls_service w p =
    (is_active p.status && is_utility_payment p)
    && (not (is_over_limit p.spending_limit p.amount) && has_sufficient_balance w p.amount)

-- The call of the service: none for the exception that is caught.
unfoldable pub call_service :
    Json → (Error → String) → Subscription → ℕ → Wallet → RecurringPayment → Db → Option Bool × Db
call_service j str s now w p db =
    if has_clash s.metadata
    then (none, db)
    else (let (a, db') =
          process_utility_payment j str now p.user_id s.provider s.customer_id p.amount w.id
            s.idempotency_key s.metadata db in
        (some (is_success a), db'))

-- One run, with the state that the service leaves.
unfoldable pub run_payment :
    Calendar
    → Json
    → (Error → String)
    → Subscription
    → ℕ
    → Wallet
    → RecurringPayment
    → Db
    → RecurringPayment × Db
run_payment cal j str s now w p db =
    let (outcome, db') = call_service j str s now w p db in
    ((process_payment cal now outcome w p).1, if calls_service w p then db' else db)

-- A run at each of the given times.
unfoldable pub run_payments :
    Calendar
    → Json
    → (Error → String)
    → Subscription
    → List ℕ
    → Wallet
    → RecurringPayment
    → Db
    → RecurringPayment × Db
run_payments cal j str s [] w p db = (p, db)
run_payments cal j str s (now ∷ times) w p db =
    let r = run_payment cal j str s now w p db in run_payments cal j str s times w r.0 r.1

same_failure :
    (cal : Calendar) (now later : ℕ) (w : Wallet) (p : RecurringPayment)
    → (process_payment cal now (some false) w p).1 ≡ (process_payment cal later none w p).1
unfolding process_payment
same_failure cal now later w p = ground arith

no_success :
    (j : Json) (str : Error → String) (now user wallet : ℕ) (u : UtilityProvider)
    (customer : String) (key : Option ℕ) (params : Params) (p : RecurringPayment) (db : Db)
    → find_first (is_duplicate key wallet) db.transactions ≡ none
    → is_success (process_utility_payment j str now user u customer p.amount wallet key params db).0
      ≡ false
no_success j str now user wallet u customer key params p db h =
    elim (process_utility_payment-IsReplay j str now user wallet u customer p.amount key params
      db).1 [ inl e ↦ e | inr (t, e, q) ↦ absurd (ground arith) ]

-- The call fails or raises, and leaves the state.
call_fails :
    (j : Json) (str : Error → String) (s : Subscription) (now : ℕ) (w : Wallet)
    (p : RecurringPayment) (db : Db)
    → find_first (is_duplicate s.idempotency_key w.id) db.transactions ≡ none
    → (call_service j str s now w p db ≡ (none, db))
      ⊎ (call_service j str s now w p db ≡ (some false, db))
unfolding call_service
call_fails j str s now w p db h = elim (Bool-cases (has_clash s.metadata)) [
  | inl y ↦ inl (rw y refl)
  | inr n ↦ inr (
      rw
        (
          n,
          no_success j str now p.user_id w.id s.provider s.customer_id s.idempotency_key s.metadata
              p db h,
          process_utility_payment_keeps j str now p.user_id w.id s.provider s.customer_id p.amount
              s.idempotency_key s.metadata db,
        )
        refl)
]

same_exception :
    (cal : Calendar) (now later : ℕ) (w : Wallet) (p : RecurringPayment)
    → (process_payment cal now none w p).1 ≡ (process_payment cal later none w p).1
unfolding process_payment
same_exception cal now later w p = ground arith

run_fails :
    (cal : Calendar) (j : Json) (str : Error → String) (s : Subscription) (now later : ℕ)
    (w : Wallet) (p : RecurringPayment) (db : Db)
    → find_first (is_duplicate s.idempotency_key w.id) db.transactions ≡ none
    → run_payment cal j str s now w p db ≡ ((process_payment cal later none w p).1, db)
unfolding run_payment
run_fails cal j str s now later w p db h = elim (call_fails j str s now w p db h) [
  | inl e ↦ rw (e, same_exception cal now later w p) (ground arith)
  | inr e ↦ rw (e, same_failure cal now later w p) (ground arith)
]

all_fail :
    (cal : Calendar) (j : Json) (str : Error → String) (s : Subscription) (times : List ℕ)
    (w : Wallet) (p : RecurringPayment) (db : Db)
    → find_first (is_duplicate s.idempotency_key w.id) db.transactions ≡ none
    → run_payments cal j str s times w p db ≡ (fail_times cal 0 w (length times) p, db)
unfolding run_payments fail_times
all_fail cal j str s [] w p db h = refl
all_fail cal j str s (now ∷ times) w p db h =
    rw (run_fails cal j str s now 0 w p db h)
      (all_fail cal j str s times w (process_payment cal 0 none w p).1 db h)

-- The runs of an active recurring payment to a utility with attempts left, whose metadata names no
-- key that a transaction of its wallet has, at whatever times, leave the tables as they were,
-- whatever the wallet holds and the provider allows; each counts one more failed attempt, up to the
-- maximum, and the payment is paused exactly from the maximum on.
pub run_payments-AfterFailures :
    (cal : Calendar) (j : Json) (str : Error → String) (s : Subscription) (times : List ℕ)
    (w : Wallet) (p : RecurringPayment) (db : Db)
    → find_first (is_duplicate s.idempotency_key w.id) db.transactions ≡ none
    → p.status ≡ active
    → p.failed_attempts < p.max_failed_attempts
    → is_some p.utility_provider ≡ true
    → let (q, db') = run_payments cal j str s times w p db in
      (db' ≡ db) × AfterFailures (length times) p q
run_payments-AfterFailures cal j str s times w p db h a lt u =
    rw (all_fail cal j str s times w p db h)
      (refl, fail_times-AfterFailures cal 0 w (length times) p a lt u)
