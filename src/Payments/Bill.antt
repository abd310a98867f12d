-- ===== src/Payments/Bill.antt =====
-- The methods of `class Bill`, core/common/models/payments/bill.py, that read a bill: they take
-- the tables where the source queries them, and the time where it asks for it.
pub mod Remaining
use clustr_be.Base.{
  ℕ, Bool, true, false, ◌&&◌, ◌||◌, Option, none, some, List, ltb, ◌==◌, not, if◌then◌else◌,
  is_some, is_at, any, keep, find_first, contains, length, sum_by,
}
use clustr_be.Base.Int.{ℤ, pos, ◌-ℤ◌, leb_ℤ, ltb_ℤ, eqb_ℤ}
use clustr_be.Payments.Types.{
  Wallet, Transaction, Bill, BillStatus, BillDispute, User, cluster_managed, user_managed,
  is_cluster_managed, is_completed, is_active_status,
}
use clustr_be.Payments.Store.{Db, Result, ok, err, field_error, wallet_is}

unfoldable pub is_cluster_wide : Bill → Bool
is_cluster_wide b = not (is_some b.user_id)

-- `self.transactions.filter(status=COMPLETED)`
abbrev pub is_payment_of : Bill → Transaction → Bool
is_payment_of b t = is_completed t.status && is_at t.bill b.id

unfoldable pub get_total_paid : Db → Bill → ℤ
get_total_paid db b =
    if is_cluster_managed b.category
    then sum_by (λ t. t.amount) (keep (is_payment_of b) db.transactions)
    else b.paid_amount

unfoldable pub is_fully_paid : Db → Bill → Bool
unfolding get_total_paid
is_fully_paid db b =
    if is_cluster_managed b.category
    then leb_ℤ b.amount (get_total_paid db b)
    else leb_ℤ b.amount b.paid_amount

-- `max(self.amount - total_paid, 0)`
unfoldable pub get_remaining_amount : Db → Bill → ℤ
unfolding get_total_paid
get_remaining_amount db b =
    let rest = b.amount -ℤ get_total_paid db b in if ltb_ℤ (pos 0) rest then rest else pos 0

unfoldable pub is_overdue : ℕ → Db → Bill → Bool
unfolding is_fully_paid
is_overdue now db b = is_some b.user_id && (ltb b.due_date now && not (is_fully_paid db b))

-- `self.disputes.filter(status__in=[OPEN, UNDER_REVIEW])`
abbrev pub is_active_dispute_of : Bill → BillDispute → Bool
is_active_dispute_of b d = is_active_status d.status && d.bill == b.id

unfoldable pub is_disputed : Db → Bill → Bool
is_disputed db b = is_some b.user_id && any (is_active_dispute_of b) db.disputes

unfoldable pub dispute_count : Db → Bill → ℕ
dispute_count db b = length (keep (is_active_dispute_of b) db.disputes)

unfoldable pub can_be_paid : Db → Bill → Bool
unfolding is_fully_paid is_disputed
can_be_paid db b = not (is_fully_paid db b) && not (is_disputed db b)

unfoldable pub is_acknowledged_by : Bill → User → Bool
is_acknowledged_by b u = contains u.id b.acknowledged_by

-- The property `status`.
unfoldable pub status : ℕ → Db → Bill → BillStatus
unfolding is_fully_paid is_disputed is_overdue
status now db b =
    if is_fully_paid db b
    then BillStatus.paid
    else if ltb_ℤ (pos 0) b.paid_amount
    then BillStatus.partially_paid
    else if is_disputed db b
    then BillStatus.disputed
    else if is_overdue now db b
    then BillStatus.overdue
    else if is_cluster_managed b.category
    then BillStatus.pending
    else if length b.acknowledged_by == 0
    then BillStatus.pending_acknowledgment
    else if eqb_ℤ b.paid_amount (pos 0)
    then BillStatus.acknowledged
    else BillStatus.pending

-- For a bill of the whole cluster the test is `hasattr(user, 'cluster') and ...`, and a user has no
-- attribute of this name, so that nobody can acknowledge such a bill.
unfoldable pub can_be_acknowledged_by : Bill → User → Bool
can_be_acknowledged_by b u = elim b.user_id [ none ↦ false | some i ↦ u.id == i ]

unfoldable pub can_be_paid_by : ℕ → Bill → User → Bool
unfolding can_be_acknowledged_by is_acknowledged_by
can_be_paid_by now b u =
    can_be_acknowledged_by b u
    && ((is_cluster_managed b.category || is_acknowledged_by b u)
        && not (ltb b.due_date now && not b.allow_payment_after_due))

-- The query filters by `wallet__user`. A wallet has the column `user_id` only, so Django raises
-- `FieldError` when the query is built.
unfoldable pub get_user_payment_amount : Db → Bill → User → Result ℤ
get_user_payment_amount db b u = err field_error
