-- ===== src/Payments/ClusterWallet.antt =====
-- core/common/includes/cluster_wallet.py: the wallet of a cluster, kept under the cluster's own
-- identifier as its user.
use Prim.Native.String.{String}
use clustr_be.Base.{ℕ, Bool, ◌&&◌, Option, none, some, ◌==◌, not, find_first}
use clustr_be.Base.Int.{ℤ, pos}
use clustr_be.Payments.Types.{
  Wallet, Transaction, Metadata, Bill, active, deposit, transfer, pending, completed,
}
use clustr_be.Payments.Store.{
  Action, pure, raise_if, atomic, or_raise, from_result, gets, ◌>>=◌, ◌>>◌, get_transaction,
  save_wallet, save_transaction, insert_wallet, fresh_id, no_cluster, does_not_exist,
  insufficient_balance,
}
use clustr_be.Payments.Wallet.{has_sufficient_balance, debit, credit}
use clustr_be.Payments.Transaction.{no_metadata, insert_transaction}

abbrev pub is_cluster_wallet : ℕ → Wallet → Bool
is_cluster_wallet c w = w.cluster == c && w.user_id == c

-- The wallet that a cluster gets at its first credit.
abbrev pub new_wallet : ℕ → String → ℕ → Wallet
new_wallet c currency id = record {
  id = id;
  cluster = c;
  user_id = c;
  balance = pos 0;
  available_balance = pos 0;
  currency = currency;
  status = active;
  last_transaction_at = none;
}

-- `Wallet.objects.get_or_create(cluster=cluster, user_id=cluster.id, defaults={...})`
unfoldable pub get_or_create_wallet : ℕ → String → Action Wallet
get_or_create_wallet c currency db = elim (find_first (is_cluster_wallet c) db.wallets) [
  | some w ↦ pure w db
  | none ↦ let w = new_wallet c currency db.next_id in (fresh_id >> insert_wallet w >> pure w) db
]

-- The completed deposit that both crediting functions create.
abbrev pub deposit_of : ℕ → ℤ → Wallet → Option ℕ → Metadata → Transaction
deposit_of now amount w created_by metadata = record {
  id = 0;
  cluster = w.cluster;
  wallet = w.id;
  bill = none;
  type = deposit;
  amount = amount;
  currency = w.currency;
  status = completed;
  provider_response = none;
  metadata = metadata;
  idempotency_key = none;
  processed_at = some now;
  failed_at = none;
  failure_reason = none;
  created_by = created_by;
}

unfoldable pub add_manual_credit : ℕ → Option ℕ → ℤ → Option ℕ → Action ℕ
add_manual_credit now cluster amount created_by = atomic (do
  c ← or_raise cluster no_cluster
  w ← get_or_create_wallet c "NGN"
  i ← insert_transaction (deposit_of now amount w created_by no_metadata)
  save_wallet (← from_result (credit now amount w))
  pure i)

unfoldable pub transfer_from_wallet : ℕ → Option ℕ → ℤ → Option ℕ → Action ℕ
transfer_from_wallet now cluster amount created_by = atomic (do
  c ← or_raise cluster no_cluster
  w ← or_raise (← gets (λ db. find_first (is_cluster_wallet c) db.wallets)) does_not_exist
  raise_if (not (has_sufficient_balance w amount)) insufficient_balance
  i ← insert_transaction (record (deposit_of now amount w created_by no_metadata) {
    type = transfer;
    status = pending;
    processed_at = none;
  })
  save_wallet (← from_result (debit now amount w))
  t ← get_transaction i
  save_transaction (record t { status = completed; processed_at = some now })
  pure i)

-- The last step of `credit_cluster_from_bill_payment`, on the paying transaction.
unfoldable pub record_credit : ℤ → ℕ → Option ℕ → Action (Unit {0})
record_credit amount i none = pure tt
record_credit amount i (some txn) = do
  t ← get_transaction txn
  save_transaction (record t { metadata = record t.metadata { cluster_credit = some (amount, i) } })

unfoldable pub credit_cluster_from_bill_payment : ℕ → Option ℕ → ℤ → Bill → Option ℕ → Action ℕ
credit_cluster_from_bill_payment now cluster amount bill txn = atomic (do
  c ← or_raise cluster no_cluster
  w ← get_or_create_wallet c bill.currency
  i ← insert_transaction (
      deposit_of now amount w (some c) (record no_metadata {
        bill_id = some bill.id;
        source = some "bill_payment";
        original_transaction_id = txn;
      }))
  save_wallet (← from_result (credit now amount w))
  record_credit amount i txn
  pure i)
