-- ===== src/Payments/Dispute.antt =====
-- The methods of `class BillDispute`, core/common/models/payments/bill.py. A write that would give
-- one user two active disputes over one bill breaks the constraint
-- `unique_bill_dispute_per_user`, and the database refuses it.
pub mod Unique
use Prim.Native.String.{String}
use clustr_be.Base.{
  ℕ, Bool, true, false, ◌&&◌, Option, none, some, List, ◌==◌, not, if◌then◌else◌, any, update_first,
}
use clustr_be.Payments.Types.{
  BillDispute, DisputeStatus, is_active_status, resolved, rejected, withdrawn, under_review,
}
use clustr_be.Payments.Store.{
  Db, Action, pure, raise_if, gets, ◌>>=◌, ◌>>◌, get_dispute, dispute_is, integrity_error,
}
use clustr_be.Payments.Billing.{is_active_dispute_by}

-- Another active dispute of the same user over the same bill.
abbrev pub is_rival : BillDispute → BillDispute → Bool
is_rival d e = not (e.id == d.id) && is_active_dispute_by d.bill d.disputed_by e

unfoldable pub save_dispute : BillDispute → Action (Unit {0})
save_dispute d = do
  raise_if (is_active_status d.status && (← gets (λ db. any (is_rival d) db.disputes)))
      integrity_error
  (λ db. pure tt (record db { disputes = update_first (dispute_is d.id) (λ _. d) db.disputes }))

unfoldable pub resolve : ℕ → ℕ → String → ℕ → Action (Unit {0})
resolve now resolved_by notes i = do
  d ← get_dispute i
  save_dispute (record d {
    status = resolved;
    resolved_by = some resolved_by;
    resolved_at = some now;
    resolution_notes = some notes;
  })

unfoldable pub reject : ℕ → ℕ → String → ℕ → Action (Unit {0})
reject now resolved_by notes i = do
  d ← get_dispute i
  save_dispute (record d {
    status = rejected;
    resolved_by = some resolved_by;
    resolved_at = some now;
    resolution_notes = some notes;
  })

unfoldable pub withdraw : ℕ → ℕ → Action Bool
withdraw now i = do
  d ← get_dispute i
  if is_active_status d.status
      then save_dispute (record d { status = withdrawn; resolved_at = some now }) >> pure true
      else pure false

-- Empty notes leave the notes that are there.
unfoldable pub set_under_review : Option String → ℕ → Action (Unit {0})
set_under_review notes i = do
  d ← get_dispute i
  save_dispute (record d {
    status = under_review;
    admin_notes = elim notes [ none ↦ d.admin_notes | some n ↦ some n ];
  })
