-- ===== src/Payments/Creation/Life.antt =====
-- The life of a bill of one user: made, acknowledged and paid.
use clustr_be.Base.{
  ℕ, ◌+◌, ◌≡◌, refl, ◌&&◌, not, ltb, Bool, true, false, Option, none, some, List, [], ◌∷◌, arith,
  find_first, update_first, any,
}
use clustr_be.Base.Int.{ℤ, pos, ◌+ℤ◌, ◌-ℤ◌, leb_ℤ, int_laws}
use clustr_be.Payments.Types.{Wallet, Bill, BillStatus, User, user_managed}
use clustr_be.Payments.Store.{
  Db, ok, ◌>>=◌, ◌>>◌, bill_created, bill_is, wallet_is, user_is, get_bill,
}
use clustr_be.Payments.Wallet.{has_sufficient_balance}
use clustr_be.Payments.Transaction.{same_key}
use clustr_be.Payments.ClusterWallet.{is_cluster_wallet}
use mathlib.Core.Option
use clustr_be.Payments.Bill.{
  status, is_fully_paid, can_be_acknowledged_by, is_acknowledged_by, can_be_paid_by,
}
use clustr_be.Payments.Billing.{acknowledge}
use clustr_be.Payments.Bills.{remaining_for, payment_amount, process_payment}
use clustr_be.Payments.Outcome.{put_in, take_out, paid_bills, settled, process_payment-settled}
use clustr_be.Payments.Creation.{
  insert_bill, new_bill, send_user_specific_bill_notification, create_user_specific,
}

-- The new row, and the row when its user has acknowledged it.
abbrev issued : ℕ → ℕ → User → ℤ → ℕ → Bool → Bill
issued i cluster u amount due allow = record (new_bill cluster amount due allow) {
  id = i;
  user_id = some u.id;
  category = user_managed;
}

abbrev accepted : ℕ → ℕ → User → ℤ → ℕ → Bool → Bill
accepted i cluster u amount due allow = record (issued i cluster u amount due allow) {
  acknowledged_by = u.id ∷ [];
}

-- The database with the new bill in front.
abbrev billed : Bill → User → Db → Db
billed b u db = record db {
  bills = b ∷ db.bills;
  outbox = record { event_name = bill_created; recipients = u.id ∷ [] } ∷ db.outbox;
  next_id = db.next_id + 1;
}

created :
    (cluster : ℕ) (u : User) (amount : ℤ) (due : ℕ) (allow : Bool) (db : Db)
    → find_first (user_is u.id) db.users ≡ some u
    → create_user_specific cluster u.id amount due allow db
      ≡ (ok db.next_id, billed (issued db.next_id cluster u amount due allow) u db)
unfolding create_user_specific insert_bill send_user_specific_bill_notification ◌>>=◌ ◌>>◌
created cluster u amount due allow db hu = ground arith

acknowledged :
    (i cluster : ℕ) (u : User) (amount : ℤ) (due : ℕ) (allow : Bool) (db : Db)
    → acknowledge u i (billed (issued i cluster u amount due allow) u db)
      ≡ (ok true, billed (accepted i cluster u amount due allow) u db)
unfolding acknowledge get_bill can_be_acknowledged_by is_acknowledged_by ◌>>=◌ ◌>>◌
acknowledged i cluster u amount due allow db = ground arith

minus_zero : (x : ℤ) → x -ℤ pos 0 ≡ x
minus_zero x = grind int_laws

zero_plus : (x : ℤ) → pos 0 +ℤ x ≡ x
zero_plus x = grind int_laws

-- All of the amount is to be paid.
due_amount :
    (now i cluster : ℕ) (u : User) (w : Wallet) (amount : ℤ) (due : ℕ) (allow : Bool) (db : Db)
    → (ltb due now && not allow) ≡ false
    → leb_ℤ amount (pos 0) ≡ false
    → has_sufficient_balance w amount ≡ true
    → payment_amount now (accepted i cluster u amount due allow) w none u db ≡ (ok amount, db)
unfolding payment_amount remaining_for can_be_paid_by can_be_acknowledged_by is_acknowledged_by
    ◌>>=◌ ◌>>◌
due_amount now i cluster u w amount due allow db hd hx hs = ground (arith, minus_zero amount)

billed_first :
    (b : Bill) (u : User) (db : Db) → find_first (bill_is b.id) (billed b u db).bills ≡ some b
billed_first b u db = ground arith

accepted_ack :
    (i cluster : ℕ) (u : User) (amount : ℤ) (due : ℕ) (allow : Bool)
    → is_acknowledged_by (accepted i cluster u amount due allow) u ≡ true
unfolding is_acknowledged_by
accepted_ack i cluster u amount due allow = ground arith

-- With the whole amount paid the row has the status paid.
paid_status :
    (now later i txn cluster : ℕ) (u : User) (amount : ℤ) (due : ℕ) (allow : Bool)
    (bills : List Bill) (db : Db)
    → Option.map (status later db) (
        find_first (bill_is i) (
          paid_bills now amount
            (accepted i cluster u amount due allow)
            txn
            (accepted i cluster u amount due allow ∷ bills)))
      ≡ some BillStatus.paid
unfolding status is_fully_paid
paid_status now later i txn cluster u amount due allow bills db = ground (arith, zero_plus amount)

-- A bill that is made for a known user can be acknowledged by this user and then, before it is due
-- or where payment after that is allowed, paid: with enough in the wallet, under a key that no
-- transaction has, and in a cluster that has a wallet, the payment without an amount returns a new
-- transaction, moves the whole amount from the user's wallet to the cluster's, and leaves the bill
-- with the status paid.
pub create_user_specific-status :
    (now later cluster : ℕ) (u : User) (w cw : Wallet) (amount : ℤ) (due : ℕ) (allow : Bool)
    (key : Option ℕ) (db : Db)
    → find_first (user_is u.id) db.users ≡ some u
    → find_first (wallet_is w.id) db.wallets ≡ some w
    → w.user_id ≡ u.id
    → leb_ℤ amount (pos 0) ≡ false
    → has_sufficient_balance w amount ≡ true
    → (ltb due now && not allow) ≡ false
    → any (same_key key) db.transactions ≡ false
    → find_first
        (is_cluster_wallet cluster)
        (update_first (wallet_is w.id) (λ _. take_out now amount w) db.wallets)
      ≡ some cw
    → let (made, db₁) = create_user_specific cluster u.id amount due allow db in
      let (taken, db₂) = acknowledge u db.next_id db₁ in
      let (txn, db₃) = process_payment now db.next_id w.id none u key db₂ in
      (made ≡ ok db.next_id)
      × (taken ≡ ok true)
      × (txn ≡ ok (db.next_id + 1))
      × (db₃.wallets
          ≡ update_first
              (wallet_is cw.id)
              (λ _. put_in now amount cw)
              (update_first (wallet_is w.id) (λ _. take_out now amount w) db.wallets))
      × (Option.map (status later db₃) (find_first (bill_is db.next_id) db₃.bills)
          ≡ some BillStatus.paid)
create_user_specific-status now later cluster u w cw amount due allow key db hu hw eu hx hs hd hk
      hc =
    let b = accepted db.next_id cluster u amount due allow in
    let db₂ = billed b u db in
    rw
      (
        created cluster u amount due allow db hu,
        acknowledged db.next_id cluster u amount due allow db,
        process_payment-settled now none amount b w cw u key db₂ (billed_first b u db) hw hu eu
            (accepted_ack db.next_id cluster u amount due allow)
            (due_amount now db.next_id cluster u w amount due allow db₂ hd hx hs) hk hc,
      )
      (
        refl,
        refl,
        refl,
        refl,
        paid_status now later db.next_id (db.next_id + 1) cluster u amount due allow db.bills
            (settled now amount b w cw u key db₂),
      )
