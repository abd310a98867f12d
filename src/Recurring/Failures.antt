-- ===== src/Recurring/Failures.antt =====
-- Failed attempts, and when they pause a recurring payment.
use Prim.Native.String.{String}
use clustr_be.Recurring.Handling.{handle_recurring_payment_failure}
use Prim.Native.Nat.{min}
use clustr_be.Base.{
  ℕ, zero, suc, ◌+◌, ◌<◌, ◌≡◌, ◌≢◌, ◌⊎◌, ltb, refl, ap, Bool, true, false, Option, none, List, [],
  ◌∷◌, arith, leb, if◌then◌else◌, is_some, length, keep, Bool-cases, inl, inr,
}
use clustr_be.Payments.Types.{Wallet}
use clustr_be.Payments.Store.{Error, err, name_error, module_not_found}
use clustr_be.Payments.Wallet.{has_sufficient_balance}
use clustr_be.Recurring.{
  RecurringPayment, Calendar, Counts, active, paused, count_failure, process_payment, pause, resume,
  cancel, is_due, process_due_payments,
}

-- A payment that is still active has attempts left.
abbrev pub HasAttempts : RecurringPayment → Type 0
HasAttempts p =
    (0 < p.max_failed_attempts)
    × ((p.status ≢ active) ⊎ (p.failed_attempts < p.max_failed_attempts))

-- From a recurring payment with a positive maximum of failed attempts that is below it or not
-- active, every operation, whatever its outcome, leads to such a one.
pub operations-HasAttempts :
    (cal : Calendar) (now : ℕ) (outcome : Option Bool) (w : Wallet) (by_user : Option ℕ)
    (message : String) (p : RecurringPayment)
    → HasAttempts p
    → HasAttempts (process_payment cal now outcome w p).1
      × HasAttempts (pause by_user p).1
      × HasAttempts (resume by_user p).1
      × HasAttempts (cancel by_user p).1
      × HasAttempts (handle_recurring_payment_failure message p).1
unfolding process_payment pause resume cancel handle_recurring_payment_failure
operations-HasAttempts cal now outcome w by_user message p h =
    (ground arith, ground arith, ground arith, ground arith, ground arith)

-- The row after `n` due dates on which the utility service raised or refused.
unfoldable pub fail_times : Calendar → ℕ → Wallet → ℕ → RecurringPayment → RecurringPayment
fail_times cal now w zero p = p
fail_times cal now w (suc n) p = fail_times cal now w n (process_payment cal now none w p).1

one_failure :
    (cal : Calendar) (now : ℕ) (w : Wallet) (p : RecurringPayment)
    → p.status ≡ active
    → is_some p.utility_provider ≡ true
    → (process_payment cal now none w p).1 ≡ count_failure p
unfolding process_payment
one_failure cal now w p h u = ground arith

paused_stays :
    (cal : Calendar) (now : ℕ) (w : Wallet) (n : ℕ) (p : RecurringPayment)
    → p.status ≡ paused
    → fail_times cal now w n p ≡ p
unfolding fail_times process_payment
paused_stays cal now w zero p h = refl
paused_stays cal now w (suc n) p h = ground (arith, paused_stays cal now w n p h)

-- What `n` failures make of a payment with `f` of `m` failures behind it.
abbrev pub AfterFailures : ℕ → RecurringPayment → RecurringPayment → Type 0
AfterFailures n p q =
    (q.status ≡ (if ltb (p.failed_attempts + n) p.max_failed_attempts then active else paused))
    × (q.failed_attempts ≡ min (p.failed_attempts + n) p.max_failed_attempts)

after_last :
    (cal : Calendar) (now : ℕ) (w : Wallet) (n : ℕ) (p : RecurringPayment)
    → p.status ≡ active
    → p.failed_attempts < p.max_failed_attempts
    → leb p.max_failed_attempts (p.failed_attempts + 1) ≡ true
    → AfterFailures (suc n) p (fail_times cal now w n (count_failure p))
unfolding count_failure
after_last cal now w n p h lt last = ground (arith, paused_stays cal now w n (count_failure p))

after_more :
    (cal : Calendar) (now : ℕ) (w : Wallet) (n : ℕ) (p : RecurringPayment)
    → p.status ≡ active
    → p.failed_attempts < p.max_failed_attempts
    → is_some p.utility_provider ≡ true
    → leb p.max_failed_attempts (p.failed_attempts + 1) ≡ false
    → ((count_failure p).status ≡ active
        → (count_failure p).failed_attempts < (count_failure p).max_failed_attempts
        → is_some (count_failure p).utility_provider ≡ true
        → AfterFailures n (count_failure p) (fail_times cal now w n (count_failure p)))
    → AfterFailures (suc n) p (fail_times cal now w n (count_failure p))
unfolding count_failure
after_more cal now w n p h lt u more ih = ground arith

fail_times-suc :
    (cal : Calendar) (now : ℕ) (w : Wallet) (n : ℕ) (p : RecurringPayment)
    → p.status ≡ active
    → is_some p.utility_provider ≡ true
    → fail_times cal now w (suc n) p ≡ fail_times cal now w n (count_failure p)
unfolding fail_times
fail_times-suc cal now w n p h u = ap (fail_times cal now w n) (one_failure cal now w p h u)

after_none :
    (cal : Calendar) (now : ℕ) (w : Wallet) (p : RecurringPayment)
    → p.status ≡ active
    → p.failed_attempts < p.max_failed_attempts
    → AfterFailures zero p (fail_times cal now w zero p)
unfolding fail_times
after_none cal now w p h lt = ground arith

-- An active payment to a utility, with failures below its maximum, that fails `n` times in a row
-- stays active and counts the
-- failures as long as they are below the maximum, and from the maximum on it is paused and counts
-- no more.
pub fail_times-AfterFailures :
    (cal : Calendar) (now : ℕ) (w : Wallet) (n : ℕ) (p : RecurringPayment)
    → p.status ≡ active
    → p.failed_attempts < p.max_failed_attempts
    → is_some p.utility_provider ≡ true
    → AfterFailures n p (fail_times cal now w n p)
fail_times-AfterFailures cal now w zero p h lt u = after_none cal now w p h lt
fail_times-AfterFailures cal now w (suc n) p h lt u =
    rw (fail_times-suc cal now w n p h u)
      (elim (Bool-cases (leb p.max_failed_attempts (p.failed_attempts + 1))) [
        | inl last ↦ after_last cal now w n p h lt last
        | inr more ↦
            after_more cal now w n p h lt u more
              (fail_times-AfterFailures cal now w n (count_failure p))
      ])

-- No round of the loop over due payments processes one: all that are due are counted as failed.
pub process_due_payments_fails :
    (now : ℕ) (es : List (Wallet × RecurringPayment)) (c : Counts)
    → process_due_payments now es c
      ≡ record c { failed = c.failed + length (keep (λ e. is_due now e.1) es) }
unfolding process_due_payments
process_due_payments_fails now [] c = ground arith
process_due_payments_fails now (e ∷ es) c = ground (
  arith,
  process_due_payments_fails now es c,
  process_due_payments_fails now es (record c { failed = c.failed + 1 }),
)

-- A run of an active payment to the cluster always raises, and the payment is neither counted as
-- made nor moved to its next date.
pub process_cluster_payment_raises :
    (cal : Calendar) (now : ℕ) (outcome : Option Bool) (w : Wallet) (p : RecurringPayment)
    → p.status ≡ active
    → p.utility_provider ≡ none
    → let (r, q) = process_payment cal now outcome w p in
      ((e : Error) × (r ≡ err e))
      × (q.total_payments ≡ p.total_payments)
      × (q.next_payment_date ≡ p.next_payment_date)
unfolding process_payment
process_cluster_payment_raises cal now outcome w p h u =
    elim (Bool-cases (has_sufficient_balance w p.amount)) [
      | inl e ↦ ((name_error, ground arith), ground arith, ground arith)
      | inr e ↦ ((module_not_found, ground arith), ground arith, ground arith)
    ]
