-- ===== src/Payments/Failures/Retries.antt =====
-- How often a transaction is retried, by both functions that retry one.
use Prim.Native.String.{String}
use clustr_be.Base.{ℕ, ◌+◌, ◌≤◌, ◌≡◌, Bool, List, [], ◌∷◌, ◌⊎◌}
use clustr_be.Payments.Types.{Transaction}
use clustr_be.Payments.Store.{Db, Result}
use clustr_be.Payments.Transaction.{mark_as_completed}
use clustr_be.Payments.Webhook.{Gateway, PaymentProvider}
use clustr_be.Payments.Failures.Errors.{PaymentError, mark_as_resolved, retry_failed_payment}
use clustr_be.Payments.Failures.Counts.{granted, count_of, retry_count}
use clustr_be.Payments.Failures.{handle_transaction_failure, retry_failed_transaction}

-- What happens to a transaction and to the row of its error.
pub data Event : Type 0 where
  failure : String → Event
  completion : String → Event
  retry retry_error resolution : Event

module _ (g : Gateway) (initialize_payment : Transaction → String ⊎ String) (has_contact : Bool)
    (now : ℕ) (p : PaymentProvider) (i : ℕ) where
  abbrev retry_of : PaymentError → Db → PaymentError × (Result Bool × Db)
  retry_of = retry_failed_payment g initialize_payment has_contact now p

  -- How many of the retries are granted.
  unfoldable pub retries : List Event → PaymentError → Db → ℕ
  retries [] e db = 0
  retries (failure m ∷ es) e db = retries es e (handle_transaction_failure now p m i db).1
  retries (completion extra ∷ es) e db = retries es e (mark_as_completed now extra i db).1
  retries (retry ∷ es) e db =
      let (r, db') = retry_failed_transaction i db in granted r + retries es e db'
  retries (retry_error ∷ es) e db =
      let (e', answer) = retry_of e db in granted answer.0 + retries es e' answer.1
  retries (resolution ∷ es) e db = retries es (mark_as_resolved now e) db

  -- What the retry of an error does to the two counts.
  abbrev IsCounted : PaymentError → Db → PaymentError × (Result Bool × Db) → Type 0
  IsCounted e db (e', answer) =
      (granted answer.0 + e.retry_count ≤ e'.retry_count)
      × (e'.retry_count ≤ e'.max_retries)
      × (e'.max_retries ≡ e.max_retries)
      × (e'.transaction ≡ i)
      × (count_of i answer.1 ≡ count_of i db)
