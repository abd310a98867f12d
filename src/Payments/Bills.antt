-- ===== src/Payments/Bills.antt =====
-- core/common/includes/bills.py: the payment of a bill out of a wallet, and the functions over
-- acknowledgment and dispute.
use Prim.Native.String.{String}
use clustr_be.Base.{
  ℕ, Bool, true, false, ◌&&◌, Option, none, some, ◌∷◌, [], ◌==◌, not, if◌then◌else◌, is_some,
  find_first,
}
use clustr_be.Base.Int.{ℤ, pos, ◌-ℤ◌, leb_ℤ, ltb_ℤ, eqb_ℤ}
use clustr_be.Payments.Types.{
  Wallet, Bill, Transaction, User, is_cluster_managed, bill_payment, pending, completed,
}
use clustr_be.Payments.Store.{
  Db, Result, ok, err, Action, pure, raise_if, atomic, from_result, gets, ◌>>=◌, ◌>>◌, get_wallet,
  get_transaction, get_bill, save_transaction, user_is, payment_successful, notify, not_payable,
  exceeds_remaining, invalid_amount, insufficient_balance,
}
use clustr_be.Payments.Wallet.{has_sufficient_balance}
use clustr_be.Payments.Transaction.{no_metadata, same_key, insert_transaction}
use clustr_be.Payments.Bill.{can_be_paid_by, get_user_payment_amount}
use clustr_be.Payments.Billing

-- `amount or remaining`: no amount, or the amount 0, stands for all that remains.
abbrev pub or_remaining : Option ℤ → ℤ → ℤ
or_remaining none remaining = remaining
or_remaining (some a) remaining = if eqb_ℤ a (pos 0) then remaining else a

-- `if idempotency_key:` fails for the empty text too.
abbrev pub is_given : Option ℕ → Bool
is_given none = false
is_given (some k) = not (k == 0)

abbrev pub is_duplicate : Option ℕ → ℕ → Transaction → Bool
is_duplicate key wallet t = is_given key && (same_key key t && t.wallet == wallet)

-- What the payer has left to pay: a share of the full amount, or the rest of a personal bill.
unfoldable pub remaining_for : Db → Bill → User → Result ℤ
remaining_for db b u =
    if is_cluster_managed b.category
    then elim (get_user_payment_amount db b u) [ ok p ↦ ok (b.amount -ℤ p) | err e ↦ err e ]
    else ok (b.amount -ℤ b.paid_amount)

-- The guards of `process_payment`: the amount to pay, or the reason not to.
unfoldable pub payment_amount : ℕ → Bill → Wallet → Option ℤ → User → Action ℤ
payment_amount now b w amount u = do
  raise_if (not (can_be_paid_by now b u)) not_payable
  remaining ← (λ db. from_result (remaining_for db b u) db)
  let pay = or_remaining amount remaining
  raise_if (ltb_ℤ remaining pay) exceeds_remaining
  raise_if (leb_ℤ pay (pos 0)) invalid_amount
  raise_if (not (has_sufficient_balance w pay)) insufficient_balance
  pure pay

-- The confirmation goes to the user who made the payment, if there is one.
unfoldable pub send_payment_confirmation : ℕ → Action Bool
send_payment_confirmation created_by db = elim (find_first (user_is created_by) db.users) [
  | none ↦ pure false db
  | some u ↦
      (notify (record { event_name = payment_successful; recipients = u.id ∷ [] }) >> pure true) db
]

-- The part of `process_payment` after the guards and the search for a duplicate.
unfoldable pub settle : ℕ → ℕ → Wallet → ℤ → User → Option ℕ → Action ℕ
settle now bill w amount u key = do
  i ← insert_transaction (record {
    id = 0;
    cluster = w.cluster;
    wallet = w.id;
    bill = none;
    type = bill_payment;
    amount = amount;
    currency = w.currency;
    status = pending;
    provider_response = none;
    metadata = record no_metadata { bill_id = some bill; payment_method = some "wallet" };
    idempotency_key = key;
    processed_at = none;
    failed_at = none;
    failure_reason = none;
    created_by = some u.id;
  })
  Billing.add_payment now amount bill i
  t ← get_transaction i
  save_transaction (record t { status = completed; processed_at = some now })
  send_payment_confirmation u.id
  pure i

-- A payment that was made before under the same key is the answer.
unfoldable pub or_existing : Option Transaction → Action ℕ → Action ℕ
or_existing none m = m
or_existing (some t) m = pure t.id

-- The identifier of the transaction, an existing one for a repeated key.
unfoldable pub process_payment : ℕ → ℕ → ℕ → Option ℤ → User → Option ℕ → Action ℕ
process_payment now bill wallet amount u key = atomic (do
  b ← get_bill bill
  w ← get_wallet wallet
  pay ← payment_amount now b w amount u
  existing ← gets (λ db. find_first (is_duplicate key w.id) db.transactions)
  or_existing existing (settle now bill w pay u key))

-- `bills.dispute`. The notice to the administrators is never sent: building it reads
-- `bill.dispute_reason`, which no bill has, and the exception is swallowed.
unfoldable pub dispute : User → String → ℕ → Action Bool
dispute u reason bill = do d ← Billing.dispute u reason bill; pure (is_some d)
