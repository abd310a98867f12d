-- ===== src/Shifts/Swaps.antt =====
-- What becomes of a request for a swap.
use clustr_be.Base.{ℕ, ◌≡◌, Option, none, some, arith, find_first, Option-cases, inl, inr}
use clustr_be.Base.Lists.{find_first-update_self}
use clustr_be.Payments.Store.{ok}
use clustr_be.Shifts.{
  Shift, ShiftSwapRequest, Roster, shift_is, swap_is, save, save_both, swap_shifts, answered,
  approve, reject, pending,
}

save_swaps : (s : Shift) (r : Roster) → (save s r).1.swaps ≡ r.swaps
unfolding save
save_swaps s r = ground arith

save_both_swaps : (s t : Shift) (r : Roster) → (save_both s t r).1.swaps ≡ r.swaps
unfolding save_both
save_both_swaps s t r = ground (arith, save_swaps s r, save_swaps t (save s r).1)

-- The saving of the swapped shifts writes no request.
swap_shifts_swaps :
    (target : Option ℕ) (i staff : ℕ) (r : Roster)
    → (swap_shifts target i staff r).1.swaps ≡ r.swaps
unfolding swap_shifts
swap_shifts_swaps none i staff r = elim (Option-cases (find_first (shift_is i) r.shifts)) [
  | inl e ↦ ground arith
  | inr (s, e) ↦ ground (arith, save_swaps (record s { assigned_staff = staff }) r)
]
swap_shifts_swaps (some j) i staff r = elim (Option-cases (find_first (shift_is i) r.shifts)) [
  | inl e ↦ ground arith
  | inr (s, e) ↦ elim (Option-cases (find_first (shift_is j) r.shifts)) [
    | inl f ↦ ground arith
    | inr (t, f) ↦ ground (
      arith,
      save_both_swaps (record s { assigned_staff = t.assigned_staff })
          (record t { assigned_staff = s.assigned_staff }) r,
    )
  ]
]

-- A pending request that has been approved or rejected is still pending in the table, so that it
-- can be answered again: its row holds who answered and when, but no new status.
pub answers_stay_pending :
    (now who i : ℕ) (q : ShiftSwapRequest) (r : Roster)
    → find_first (swap_is i) r.swaps ≡ some q
    → q.id ≡ i
    → q.status ≡ pending
    → let row = record q { approved_by = some who; approved_at = some now } in
      (find_first (swap_is i) (approve now who i r).1.swaps ≡ some row)
      × (find_first (swap_is i) (reject now who i r).1.swaps ≡ some row)
      × ((reject now who i r).0 ≡ ok tt)
      × (row.status ≡ pending)
unfolding approve reject
answers_stay_pending now who i q r e k p =
    let row = record q { approved_by = some who; approved_at = some now } in
    ground (
      arith,
      find_first-update_self (swap_is i) q row r.swaps e,
      swap_shifts_swaps q.target_shift q.original_shift q.requested_with (answered now who q r),
    )
