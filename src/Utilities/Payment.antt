-- ===== src/Utilities/Payment.antt =====
-- `process_utility_payment` of core/common/includes/utilities.py.
use Prim.Native.String.{String}
use clustr_be.Base.{ℕ, Bool, true, false, Option, none, some, not, if◌then◌else◌, find_first, is_at}
use clustr_be.Base.Int.{ℤ}
use clustr_be.Payments.Types.{Wallet, Transaction, Bill, pending, completed, bill_payment}
use clustr_be.Payments.Store.{
  Db, Error, ok, err, Action, pure, raise, from_result, ◌>>=◌, ◌>>◌, get_wallet, get_transaction,
  save_wallet, save_transaction, attribute_error, type_error,
}
use clustr_be.Payments.Wallet.{has_sufficient_balance, freeze_amount, update_balance}
use clustr_be.Payments.Transaction.{no_metadata, insert_transaction, mark_as_failed}
use clustr_be.Payments.Bills.{is_duplicate}
use clustr_be.Utilities.{UtilityProvider, is_amount_valid, Params, Purchase, purchase_utility}

-- The text of an answer as JSON.
pub record Json : Type 0 where
  pub dumps : Purchase → String

-- The column `metadata` is a JSONField without an encoder, and the default one, that of Python's
-- json, refuses a UUID with `TypeError`: a row whose metadata holds the identifier of a provider is
-- not stored.
abbrev pub store_transaction : Transaction → Action ℕ
store_transaction t = elim t.metadata.utility [
  | some _ ↦ raise type_error
  | none ↦ insert_transaction t
]

-- The results that `process_utility_payment` returns, by their text.
pub data Answer : Type 0 where
  insufficient_wallet invalid_limits not_frozen : Answer
  already_processed : ℕ → Option ℕ → Answer
  processed : ℕ → ℕ → Answer
  utility_failed : Answer
  processing_failed setup_failed : Error → Answer

-- `result.get("success")`
abbrev pub is_success : Answer → Bool
is_success (already_processed _ _) = true
is_success (processed _ _) = true
is_success _ = false

-- The handler of an exception that escapes from no `atomic`: what was written stays.
abbrev pub except : {A : Type 0} → Action A → (Error → Action A) → Action A
except m h db = let (r, db') = m db in elim r [ ok a ↦ (ok a, db') | err e ↦ h e db' ]

-- The pending transaction. Its metadata holds the provider's identifier, a UUID, as it is; the
-- extra parameters, which nothing reads there, are left out.
abbrev pub utility_row : ℕ → UtilityProvider → String → ℤ → Wallet → Option ℕ → Transaction
utility_row user u customer amount w key = record {
  id = 0;
  cluster = u.cluster;
  wallet = w.id;
  bill = none;
  type = bill_payment;
  amount = amount;
  currency = w.currency;
  status = pending;
  provider_response = none;
  metadata = record no_metadata { utility = some (u.id, (customer, u.provider_code)) };
  idempotency_key = key;
  processed_at = none;
  failed_at = none;
  failure_reason = none;
  created_by = some user;
}

-- `Bill.objects.create` is given `status`, a property that has no setter: the constructor of the
-- row raises.
abbrev pub create_paid_bill : Action ℕ
create_paid_bill = raise attribute_error

-- The lines after a successful purchase.
unfoldable pub complete_purchase : Json → ℕ → ℤ → ℕ → ℕ → Purchase → Action Answer
complete_purchase j now amount wallet txn result = do
  t ← get_transaction txn
  save_transaction (record t {
    status = completed;
    processed_at = some now;
    provider_response = some (j.dumps result);
  })
  w ← get_wallet wallet
  save_wallet (← from_result (update_balance now amount bill_payment w))
  bill ← create_paid_bill
  pure (processed txn bill)

-- The body of the inner `try`. A purchase that answers with a failure also records a row for the
-- support, in a table of its own.
unfoldable pub try_purchase :
    Json → ℕ → UtilityProvider → String → ℤ → ℕ → ℕ → Params → Action Answer
try_purchase j now u customer amount wallet txn params = do
  result ← from_result (purchase_utility u.api_provider customer amount u.provider_code txn params)
  if result.success
      then complete_purchase j now amount wallet txn result
      else (mark_as_failed now (some "Payment failed") txn >> pure utility_failed)

-- The inner `try` with its handler.
unfoldable pub purchase_guarded :
    Json → (Error → String) → ℕ → UtilityProvider → String → ℤ → ℕ → ℕ → Params → Action Answer
purchase_guarded j str now u customer amount wallet txn params =
    except (try_purchase j now u customer amount wallet txn params)
      (λ e. mark_as_failed now (some (str e)) txn >> pure (processing_failed e))

-- The part behind the search for a duplicate.
unfoldable pub freeze_and_purchase :
    Json
    → (Error → String)
    → ℕ
    → ℕ
    → UtilityProvider
    → String
    → ℤ
    → Wallet
    → Option ℕ
    → Params
    → Action Answer
freeze_and_purchase j str now user u customer amount w key params = do
  let frozen = freeze_amount amount w
  if not frozen.1 then pure not_frozen else (do
    save_wallet frozen.0
    txn ← store_transaction (utility_row user u customer amount w key)
    purchase_guarded j str now u customer amount w.id txn params)

abbrev pub bill_of : ℕ → Db → Option ℕ
bill_of t db = elim (find_first (λ (b : Bill). is_at b.payment_transaction t) db.bills) [
  | none ↦ none
  | some b ↦ some b.id
]

-- The body of the outer `try`, on the wallet that was loaded.
unfoldable pub utility_row_payment :
    Json
    → (Error → String)
    → ℕ
    → ℕ
    → UtilityProvider
    → String
    → ℤ
    → Wallet
    → Option ℕ
    → Params
    → Action Answer
utility_row_payment j str now user u customer amount w key params db =
    if not (has_sufficient_balance w amount)
    then (ok insufficient_wallet, db)
    else if not (is_amount_valid u amount)
    then (ok invalid_limits, db)
    else elim (find_first (is_duplicate key w.id) db.transactions) [
      | some t ↦ (ok (already_processed t.id (bill_of t.id db)), db)
      | none ↦ freeze_and_purchase j str now user u customer amount w key params db
    ]

-- The outer `try` inside `@transaction.atomic`. What reaches its handler was raised in the `save`
-- of a new row, which marks the transaction of the database: the writes are taken back at the
-- end of the `atomic`, although the exception was caught and an answer is returned.
unfoldable pub process_utility_payment :
    Json
    → (Error → String)
    → ℕ
    → ℕ
    → UtilityProvider
    → String
    → ℤ
    → ℕ
    → Option ℕ
    → Params
    → Db
    → Answer × Db
process_utility_payment j str now user u customer amount wallet key params db =
    let (r, db') =
      (get_wallet wallet >>= λ w. utility_row_payment j str now user u customer amount w key params)
        db in
    elim r [ ok a ↦ (a, db') | err e ↦ (setup_failed e, db) ]
