-- ===== src/Payments/Creation.antt =====
-- core/common/includes/bills.py: the making of a bill and the notice of it. Number, titles and the
-- type of a bill carry no decision and are left out.
pub mod Chunks
pub mod Life
mod Tests
use clustr_be.Base.{
  ℕ, zero, suc, ◌+◌, Bool, true, false, Option, none, some, List, [], ◌∷◌, find_first, length,
}
use clustr_be.Base.Int.{ℤ, pos}
use clustr_be.Payments.Types.{Bill, User, cluster_managed, user_managed}
use clustr_be.Payments.Store.{
  Db, Action, Result, ok, err, pure, ◌>>=◌, ◌>>◌, bill_created, notify, user_is,
}

-- `Bill.objects.create`, which gives the row a new identifier.
unfoldable pub insert_bill : Bill → Action Bill
insert_bill b db =
    let row = record b { id = db.next_id } in
    (ok row, record db { bills = row ∷ db.bills; next_id = db.next_id + 1 })

-- A bill with the values that the columns have by default.
abbrev pub new_bill : ℕ → ℤ → ℕ → Bool → Bill
new_bill cluster amount due_date allow_payment_after_due = record {
  id = 0;
  cluster = cluster;
  user_id = none;
  category = cluster_managed;
  utility_provider = none;
  amount = amount;
  currency = "NGN";
  acknowledged_by = [];
  allow_payment_after_due = allow_payment_after_due;
  due_date = due_date;
  paid_amount = pos 0;
  paid_at = none;
  payment_transaction = none;
}

-- A user who does not exist is logged and passed over.
unfoldable pub send_user_specific_bill_notification : Bill → Action Bool
send_user_specific_bill_notification b db = elim b.user_id [
  | none ↦ pure false db
  | some i ↦ elim (find_first (user_is i) db.users) [
    | none ↦ pure false db
    | some u ↦
        (notify (record { event_name = bill_created; recipients = u.id ∷ [] }) >> pure true) db
  ]
]

unfoldable pub create_user_specific : ℕ → ℕ → ℤ → ℕ → Bool → Action ℕ
create_user_specific cluster user_id amount due_date allow = do
  b ← insert_bill (record (new_bill cluster amount due_date allow) {
    user_id = some user_id;
    category = user_managed;
  })
  send_user_specific_bill_notification b
  pure b.id

-- The first `n` members and the rest.
abbrev pub split_at : ℕ → List ℕ → List ℕ × List ℕ
split_at n [] = ([], [])
split_at zero xs = ([], xs)
split_at (suc n) (x ∷ xs) = let (taken, rest) = split_at n xs in (x ∷ taken, rest)

-- `_chunk`, for at most `fuel` chunks.
abbrev pub chunk : ℕ → ℕ → List ℕ → List (List ℕ)
chunk zero size xs = []
chunk (suc fuel) size [] = []
chunk (suc fuel) size (x ∷ xs) =
    let (taken, rest) = split_at size (x ∷ xs) in taken ∷ chunk fuel size rest

abbrev pub notify_all : List (List ℕ) → Action (Unit {0})
notify_all [] = pure tt
notify_all (members ∷ rest) =
    notify (record { event_name = bill_created; recipients = members }) >> notify_all rest

-- `members` is what Django gives for `AccountUser.objects.filter(cluster=...)`; an exception is
-- logged and passed over.
unfoldable pub send_cluster_wide_bill_notification :
    (ℕ → List User → Result (List ℕ)) → Bill → Action Bool
send_cluster_wide_bill_notification members b db = elim (members b.cluster db.users) [
  | err _ ↦ pure false db
  | ok us ↦ (notify_all (chunk (length us) 100 us) >> pure true) db
]

unfoldable pub create_cluster_wide : (ℕ → List User → Result (List ℕ)) → ℕ → ℤ → ℕ → Bool → Action ℕ
create_cluster_wide members cluster amount due_date allow = do
  b ← insert_bill (new_bill cluster amount due_date allow)
  send_cluster_wide_bill_notification members b
  pure b.id
