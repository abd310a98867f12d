-- ===== src/Payments/Transaction.antt =====
-- The methods of `class Transaction`, core/common/models/payments/transaction.py, and the wallet
-- methods that create or settle a transaction.
pub mod Freeze
use Prim.Native.String.{String}
use clustr_be.Base.{
  ℕ, Bool, true, false, ◌&&◌, Option, none, some, ◌∷◌, not, if◌then◌else◌, any, is_at,
}
use clustr_be.Base.Int.{ℤ, pos, leb_ℤ}
use clustr_be.Payments.Types.{
  Wallet, Transaction, Metadata, TransactionType, is_outgoing, is_unsettled, pending, completed,
  failed,
}
use clustr_be.Payments.Store.{
  Db, Result, ok, Action, pure, raise, raise_if, ◌>>=◌, ◌>>◌, gets, get_wallet, get_transaction,
  save_wallet, save_transaction, fresh_id, invalid_amount, insufficient_balance, freeze_failed,
  integrity_error,
}
use clustr_be.Payments.Wallet.{has_sufficient_balance, freeze_amount, unfreeze_amount}

abbrev pub no_metadata : Metadata
no_metadata = record {
  bill_id = none;
  payment_method = none;
  source = none;
  original_transaction_id = none;
  cluster_credit = none;
  retry_count = none;
  utility = none;
}

abbrev pub same_key : Option ℕ → Transaction → Bool
same_key none t = false
same_key (some k) t = is_at t.idempotency_key k

-- `Transaction.objects.create`: the key of the new row is unique among the keys that are given.
unfoldable pub insert_transaction : Transaction → Action ℕ
insert_transaction t = do
  raise_if (← gets (λ db. any (same_key t.idempotency_key) db.transactions)) integrity_error
  i ← fresh_id
  (λ db. (ok i, record db { transactions = record t { id = i } ∷ db.transactions }))

-- The row that `Wallet.create_pending_transaction` creates.
abbrev pub pending_row : Wallet → ℕ → TransactionType → ℤ → Transaction
pending_row w wallet type amount = record {
  id = 0;
  cluster = w.cluster;
  wallet = wallet;
  bill = none;
  type = type;
  amount = amount;
  currency = w.currency;
  status = pending;
  provider_response = none;
  metadata = no_metadata;
  idempotency_key = none;
  processed_at = none;
  failed_at = none;
  failure_reason = none;
  created_by = none;
}

-- `Wallet.create_pending_transaction`
unfoldable pub create_pending_transaction : ℕ → ℤ → TransactionType → Bool → Action ℕ
create_pending_transaction wallet amount type freeze = do
  w ← get_wallet wallet
  raise_if (leb_ℤ amount (pos 0)) invalid_amount
  raise_if (is_outgoing type && not (has_sufficient_balance w amount)) insufficient_balance
  let frozen = freeze_amount amount w
  raise_if (is_outgoing type && (freeze && not frozen.1)) freeze_failed
  if is_outgoing type && freeze then save_wallet frozen.0 else pure tt
  insert_transaction (pending_row w wallet type amount)

unfoldable pub mark_as_completed : ℕ → String → ℕ → Action (Unit {0})
mark_as_completed now extra i = do
  t ← get_transaction i
  save_transaction
      (record t { status = completed; provider_response = some extra; processed_at = some now })

-- The unfreezing of an outgoing transaction's amount.
unfoldable pub release : Transaction → Action (Unit {0})
release t =
    if is_outgoing t.type
    then (get_wallet t.wallet >>= λ w. save_wallet (unfreeze_amount t.amount w))
    else pure tt

-- `mark_as_failed` on a loaded row.
unfoldable pub fail_row : ℕ → Option String → Transaction → Action (Unit {0})
fail_row now reason t =
    if is_unsettled t.status
    then release t
      >> save_transaction
          (record t { status = failed; failed_at = some now; failure_reason = reason })
    else pure tt

unfoldable pub mark_as_failed : ℕ → Option String → ℕ → Action (Unit {0})
unfolding fail_row
mark_as_failed now reason i = get_transaction i >>= fail_row now reason
