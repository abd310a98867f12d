-- ===== src/Payments/Billing.antt =====
-- The methods of `class Bill` that change the tables, core/common/models/payments/bill.py.
pub mod Acknowledged
use Prim.Native.String.{String}
use clustr_be.Base.{
  ℕ, Bool, true, false, ◌&&◌, Option, none, some, ◌∷◌, ◌==◌, not, if◌then◌else◌, is_some,
  find_first, contains, keep,
}
use clustr_be.Base.Int.{ℤ, ◌+ℤ◌, leb_ℤ}
use clustr_be.Payments.Types.{
  Wallet, Bill, BillDispute, Transaction, User, cluster_managed, user_managed, is_cluster_managed,
  is_active_status, bill_payment, open_dispute,
}
use clustr_be.Payments.Store.{
  Db, Action, pure, raise, raise_if, from_result, gets, ◌>>=◌, ◌>>◌, get_wallet, get_transaction,
  get_bill, save_wallet, save_transaction, save_bill, fresh_id, user_is, not_payable,
  not_acknowledged,
}
use clustr_be.Payments.Wallet.{debit}
use clustr_be.Payments.Bill.{
  is_fully_paid, is_acknowledged_by, can_be_acknowledged_by, can_be_paid_by,
}
use clustr_be.Payments.ClusterWallet.{credit_cluster_from_bill_payment}

-- The type of the transaction that pays a bill is corrected where it is another.
abbrev pub set_bill_payment : ℕ → Action (Unit {0})
set_bill_payment i = do t ← get_transaction i; save_transaction (record t { type = bill_payment })

unfoldable pub mark_as_paid : ℕ → ℕ → Option ℕ → Action (Unit {0})
mark_as_paid now i txn = do
  b ← get_bill i
  let paid = record b { paid_amount = b.amount; paid_at = some now }
  if is_cluster_managed b.category then pure tt else elim txn [
    | none ↦ save_bill paid
    | some t ↦ set_bill_payment t >> save_bill (record paid { payment_transaction = some t })
  ]

unfoldable pub acknowledge : User → ℕ → Action Bool
acknowledge u i = do
  b ← get_bill i
  if can_be_acknowledged_by b u && not (is_acknowledged_by b u)
      then save_bill (record b { acknowledged_by = u.id ∷ b.acknowledged_by }) >> pure true
      else pure false

unfoldable pub remove_acknowledgment : User → ℕ → Action Bool
remove_acknowledgment u i = do
  b ← get_bill i
  if is_acknowledged_by b u
      then save_bill (record b { acknowledged_by = keep (λ j. not (u.id == j)) b.acknowledged_by })
        >> pure true
      else pure false

-- The active dispute of a user over a bill: `Bill.get_user_dispute`.
abbrev pub is_active_dispute_by : ℕ → ℕ → BillDispute → Bool
is_active_dispute_by i u d = is_active_status d.status && (d.bill == i && d.disputed_by == u)

-- The identifier of the dispute, an existing one too.
unfoldable pub dispute : User → String → ℕ → Action (Option ℕ)
dispute u reason i = do
  b ← get_bill i
  fully_paid ← gets (λ db. is_fully_paid db b)
  existing ← gets (λ db. find_first (is_active_dispute_by b.id u.id) db.disputes)
  if not (can_be_acknowledged_by b u)
      then pure none
      else if fully_paid
      then pure none
      else elim existing [
        | some d ↦ pure (some d.id)
        | none ↦ fresh_id >>= λ j db. pure (some j) (record db {
          disputes =
              record {
                id = j;
                cluster = b.cluster;
                bill = b.id;
                disputed_by = u.id;
                reason = reason;
                status = open_dispute;
                admin_notes = none;
                resolved_by = none;
                resolved_at = none;
                resolution_notes = none;
              }
              ∷ db.disputes;
        })
      ]

-- `Bill.credit_cluster_wallet`
abbrev pub credit_cluster_wallet : ℕ → ℤ → Bill → Option ℕ → Action ℕ
credit_cluster_wallet now amount b txn =
    credit_cluster_from_bill_payment now (some b.cluster) amount b txn

-- What `add_payment` does for each category between the debit and the credit.
unfoldable pub record_payment : ℕ → ℤ → Bill → User → ℕ → Action (Unit {0})
record_payment now amount b u txn =
    if is_cluster_managed b.category
    then raise_if (not (is_acknowledged_by b u)) not_acknowledged
    else (do
      raise_if (not (can_be_paid_by now b u)) not_payable
      let total = b.paid_amount +ℤ amount
      set_bill_payment txn
      save_bill (record b {
        paid_amount = total;
        paid_at = if leb_ℤ b.amount total then some now else b.paid_at;
        payment_transaction = some txn;
      }))

-- The rest of `add_payment`, for the user whose wallet it is. A transaction whose wallet belongs to
-- no user is logged and passed over.
unfoldable pub pay_as : ℕ → ℤ → Bill → Wallet → ℕ → Option User → Action (Unit {0})
pay_as now amount b w txn none = pure tt
pay_as now amount b w txn (some u) = do
  save_wallet (← from_result (debit now amount w))
  record_payment now amount b u txn
  credit_cluster_wallet now amount b (some txn)
  pure tt

unfoldable pub add_payment : ℕ → ℤ → ℕ → ℕ → Action (Unit {0})
add_payment now amount i txn = do
  b ← get_bill i
  t ← get_transaction txn
  w ← get_wallet t.wallet
  user ← gets (λ db. find_first (user_is w.user_id) db.users)
  pay_as now amount b w txn user
