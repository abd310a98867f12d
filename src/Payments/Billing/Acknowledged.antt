-- ===== src/Payments/Billing/Acknowledged.antt =====
-- Acknowledging a bill and taking the acknowledgment back.
use clustr_be.Base.{ℕ, ◌≡◌, true, false, some, ◌∷◌, arith, find_first, update_first}
use clustr_be.Base.Lists.{update_first_back, find_first-update_self, keep_absent}
use clustr_be.Payments.Types.{Bill, User}
use clustr_be.Payments.Store.{Db, ok, bill_is, get_bill, ◌>>=◌, ◌>>◌}
use clustr_be.Payments.Bill.{is_acknowledged_by}
use clustr_be.Payments.Billing.{acknowledge, remove_acknowledgment}

-- The row of a bill that one more user has acknowledged.
abbrev with_ack : User → Bill → Bill
with_ack u b = record b { acknowledged_by = u.id ∷ b.acknowledged_by }

acknowledge_row :
    (u : User) (i : ℕ) (b : Bill) (db : Db)
    → find_first (bill_is i) db.bills ≡ some b
    → (acknowledge u i db).0 ≡ ok true
    → ((acknowledge u i db).1
        ≡ record db { bills = update_first (bill_is b.id) (λ _. with_ack u b) db.bills })
      × (is_acknowledged_by b u ≡ false)
unfolding acknowledge get_bill ◌>>=◌ ◌>>◌
acknowledge_row u i b db hb h = (ground arith, ground arith)

remove_from_ack :
    (u : User) (b : Bill) (db : Db)
    → find_first (bill_is b.id) db.bills ≡ some b
    → is_acknowledged_by b u ≡ false
    → let (r, db₂) =
        remove_acknowledgment u b.id
          (record db { bills = update_first (bill_is b.id) (λ _. with_ack u b) db.bills }) in
      (r ≡ ok true) × (db₂.bills ≡ db.bills)
unfolding remove_acknowledgment is_acknowledged_by get_bill ◌>>=◌ ◌>>◌
remove_from_ack u b db hb absent = ground (
  arith,
  find_first-update_self (bill_is b.id) b (with_ack u b) db.bills hb,
  update_first_back (bill_is b.id) b (with_ack u b) db.bills hb,
  keep_absent u.id b.acknowledged_by absent,
)

-- An acknowledgment that succeeds can be taken back, which restores every bill as it was.
pub remove_acknowledgment-acknowledge :
    (u : User) (b : Bill) (db : Db)
    → find_first (bill_is b.id) db.bills ≡ some b
    → (acknowledge u b.id db).0 ≡ ok true
    → let (r, db₂) = remove_acknowledgment u b.id (acknowledge u b.id db).1 in
      (r ≡ ok true) × (db₂.bills ≡ db.bills)
remove_acknowledgment-acknowledge u b db hb h =
    let (e, absent) = acknowledge_row u b.id b db hb h in rw e (remove_from_ack u b db hb absent)
