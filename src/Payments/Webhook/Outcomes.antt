-- ===== src/Payments/Webhook/Outcomes.antt =====
-- What a webhook of a payment provider can do to the database.
use clustr_be.Base.Lists.{find_first-passes}
use Prim.Native.String.{String}
use clustr_be.Base.{
  List, ℕ, ◌≡◌, ◌⊎◌, inl, inr, refl, true, false, Option, none, some, arith, find_first,
  update_first, Option-cases, Bool-cases,
}
use clustr_be.Payments.Types.{Transaction, failed}
use clustr_be.Payments.Store.{
  Db, Result, ok, Action, atomic, get_transaction, transaction_is, ◌>>=◌, ◌>>◌,
}
use clustr_be.Payments.Bills.{is_given}
use clustr_be.Payments.Webhook.{
  Gateway, PaymentProvider, Payload, verify_provider_signature, reference_of, verify_error,
  verify_payment, process_found, process_signed, process_webhook,
}

-- The state in which the row `t` has failed for the given reason.
abbrev pub failed_for : String → Transaction → Db → Db
failed_for reason t db = record db {
  transactions =
      update_first (transaction_is t.id)
        (λ _. record t { status = failed; failure_reason = some reason }) db.transactions;
}

found_id :
    (i : ℕ) (t : Transaction) (ts : List Transaction)
    → find_first (transaction_is i) ts ≡ some t
    → t.id ≡ i
found_id i t ts e = ground (arith, find_first-passes (transaction_is i) t ts e)

found_self :
    (i : ℕ) (t : Transaction) (ts : List Transaction)
    → find_first (transaction_is i) ts ≡ some t
    → find_first (transaction_is t.id) ts ≡ some t
found_self i t ts e = cc (found_id i t ts e)

verify_payment_found :
    (g : Gateway) (provider : PaymentProvider) (i : ℕ) (t : Transaction) (db : Db)
    → find_first (transaction_is i) db.transactions ≡ some t
    → verify_payment g provider t.id db ≡ (ok false, failed_for (verify_error g provider) t db)
unfolding verify_payment get_transaction atomic ◌>>=◌ ◌>>◌
verify_payment_found g provider i t db e = ground (arith, found_id i t db.transactions e)

process_signed_found :
    (g : Gateway) (provider : PaymentProvider) (i : ℕ) (t : Transaction) (db : Db)
    → is_given (some i) ≡ true
    → find_first (transaction_is i) db.transactions ≡ some t
    → process_signed g provider (some i) db ≡ (ok none, failed_for (verify_error g provider) t db)
unfolding process_signed process_found ◌>>=◌
process_signed_found g provider i t db h e =
    ground (arith, verify_payment_found g provider i t db e)

process_signed_missing :
    (g : Gateway) (provider : PaymentProvider) (i : ℕ) (db : Db)
    → find_first (transaction_is i) db.transactions ≡ none
    → process_signed g provider (some i) db ≡ (ok none, db)
unfolding process_signed process_found ◌>>=◌
process_signed_missing g provider i db e = ground arith

-- Nothing, or the failure of a transaction that stands.
abbrev pub IsFailureOnly : String → Db → Result (Option ℕ) × Db → Type 0
IsFailureOnly reason db (r, db') =
    (r ≡ ok none)
    × ((db' ≡ db)
        ⊎ (t : Transaction) × (find_first (transaction_is t.id) db.transactions ≡ some t)
          × (db' ≡ failed_for reason t db))

atomic-IsFailureOnly :
    (reason : String) (db : Db) (m : Action (Option ℕ))
    → IsFailureOnly reason db (m db)
    → IsFailureOnly reason db (atomic m db)
unfolding atomic
atomic-IsFailureOnly reason db m h = ground arith

process_signed-IsFailureOnly :
    (g : Gateway) (provider : PaymentProvider) (reference : Option ℕ) (db : Db)
    → IsFailureOnly (verify_error g provider) db (process_signed g provider reference db)
unfolding process_signed
process_signed-IsFailureOnly g provider none db = ground arith
process_signed-IsFailureOnly g provider (some i) db = elim (Bool-cases (is_given (some i))) [
  | inl h ↦ elim (Option-cases (find_first (transaction_is i) db.transactions)) [
    | inl e ↦ rw (process_signed_missing g provider i db e) (refl, inl refl)
    | inr (t, e) ↦
        rw (process_signed_found g provider i t db h e)
          (refl, inr (t, found_self i t db.transactions e, refl))
  ]
  | inr h ↦ ground arith
]

-- Whatever a provider or anyone else sends, `process_webhook` returns None, and it changes nothing
-- or marks one transaction as failed: no wallet is credited and no bill is paid.
pub process_webhook-IsFailureOnly :
    (g : Gateway) (provider : PaymentProvider) (payload signature : String) (db : Db)
    → IsFailureOnly (verify_error g provider) db (process_webhook g provider payload signature db)
unfolding process_webhook
process_webhook-IsFailureOnly g provider payload signature db =
    atomic-IsFailureOnly (verify_error g provider) db _ (elim (Option-cases (g.loads payload)) [
      | inl e ↦ ground arith
      | inr (d, e) ↦
          ground (arith, process_signed-IsFailureOnly g provider (reference_of provider d) db)
    ])

-- A webhook with a good signature that reports the success of a transaction marks that transaction
-- as failed, whatever its status was, a completed one too.
pub process_webhook_fails :
    (g : Gateway) (provider : PaymentProvider) (payload signature : String) (d : Payload)
    (t : Transaction) (db : Db)
    → g.loads payload ≡ some d
    → verify_provider_signature g provider payload signature ≡ true
    → reference_of provider d ≡ some t.id
    → is_given (some t.id) ≡ true
    → find_first (transaction_is t.id) db.transactions ≡ some t
    → process_webhook g provider payload signature db
      ≡ (ok none, failed_for (verify_error g provider) t db)
unfolding process_webhook atomic
process_webhook_fails g provider payload signature d t db hl hs hr hg ht =
    ground (arith, process_signed_found g provider t.id t db hg ht)
