-- ===== src/Shifts.antt =====
-- core/common/models/shift/shift.py and shift_swap_request.py. A row that a method is called on is
-- named by its identifier and has just been read. Neither file imports `ValidationError`, so that
-- raising one raises a `NameError`.
pub mod Calendar
pub mod Calls
pub mod Disjoint
pub mod Served
pub mod Missed
pub mod Swaps
pub mod Attendance
mod Tests
use clustr_be.Base.{
  ℕ, ◌+◌, Bool, true, false, ◌&&◌, Option, none, some, List, ◌∷◌, ltb, not, ◌==◌, if◌then◌else◌,
  any, find_first, update_first,
}
use clustr_be.Payments.Store.{Result, ok, err, Error, does_not_exist, name_error}

pub data ShiftStatus : Type 0 where
  scheduled in_progress completed cancelled no_show : ShiftStatus

pub data SwapStatus : Type 0 where
  pending approved rejected cancelled_request : SwapStatus

pub record Shift : Type 0 where
  pub id : ℕ
  pub cluster : ℕ
  pub assigned_staff : ℕ
  pub start_time : ℕ
  pub end_time : ℕ
  pub status : ShiftStatus
  pub actual_start_time : Option ℕ
  pub actual_end_time : Option ℕ

pub record ShiftSwapRequest : Type 0 where
  pub id : ℕ
  pub original_shift : ℕ
  pub requested_with : ℕ
  pub target_shift : Option ℕ
  pub status : SwapStatus
  pub approved_by : Option ℕ
  pub approved_at : Option ℕ

pub record Roster : Type 0 where
  pub shifts : List Shift
  pub swaps : List ShiftSwapRequest
  pub next_id : ℕ

abbrev pub is_scheduled : ShiftStatus → Bool
is_scheduled scheduled = true
is_scheduled _ = false

abbrev pub is_in_progress : ShiftStatus → Bool
is_in_progress in_progress = true
is_in_progress _ = false

-- `status in [SCHEDULED, IN_PROGRESS]`
abbrev pub is_active : ShiftStatus → Bool
is_active scheduled = true
is_active in_progress = true
is_active _ = false

-- `status in [COMPLETED, NO_SHOW]`
abbrev pub is_over : ShiftStatus → Bool
is_over completed = true
is_over no_show = true
is_over _ = false

abbrev pub is_pending : SwapStatus → Bool
is_pending pending = true
is_pending _ = false

abbrev pub shift_is : ℕ → Shift → Bool
shift_is i s = s.id == i

abbrev pub swap_is : ℕ → ShiftSwapRequest → Bool
swap_is i s = s.id == i

-- The test of the loop in `Shift.clean`.
abbrev pub overlaps : Shift → Shift → Bool
overlaps s t = ltb s.start_time t.end_time && ltb t.start_time s.end_time

-- The shifts that the query in `Shift.clean` selects and the loop refuses.
abbrev pub is_overlapping : Shift → Shift → Bool
is_overlapping s t =
    (t.cluster == s.cluster)
    && ((t.assigned_staff == s.assigned_staff)
        && (is_active t.status && (not (t.id == s.id) && overlaps s t)))

unfoldable pub clean : Shift → List Shift → Result (Unit {0})
clean s ss =
    if not (ltb s.start_time s.end_time)
    then err name_error
    else if any (is_overlapping s) ss
    then err name_error
    else ok tt

-- `save` validates the row first.
unfoldable pub save : Shift → Roster → Result (Unit {0}) × Roster
save s r = elim (clean s r.shifts) [
  | ok _ ↦ (ok tt, record r { shifts = update_first (shift_is s.id) (λ _. s) r.shifts })
  | err e ↦ (err e, r)
]

abbrev pub with_shift :
    ℕ → (Shift → Roster → Result (Unit {0}) × Roster) → Roster → Result (Unit {0}) × Roster
with_shift i f r = elim (find_first (shift_is i) r.shifts) [
  | none ↦ (err does_not_exist, r)
  | some s ↦ f s r
]

abbrev pub require :
    Bool → (Roster → Result (Unit {0}) × Roster) → Roster → Result (Unit {0}) × Roster
require c f r = if c then f r else (err name_error, r)

unfoldable pub clock_in : ℕ → ℕ → Roster → Result (Unit {0}) × Roster
clock_in time i = with_shift i λ s.
    require (is_scheduled s.status)
      (save (record s { actual_start_time = some time; status = in_progress }))

unfoldable pub clock_out : ℕ → ℕ → Roster → Result (Unit {0}) × Roster
clock_out time i = with_shift i λ s.
    require (is_in_progress s.status)
      (save (record s { actual_end_time = some time; status = completed }))

unfoldable pub mark_no_show : ℕ → Roster → Result (Unit {0}) × Roster
mark_no_show i =
    with_shift i λ s. require (is_scheduled s.status) (save (record s { status = no_show }))

unfoldable pub cancel : ℕ → Roster → Result (Unit {0}) × Roster
cancel i =
    with_shift i λ s. require (not (is_over s.status)) (save (record s { status = cancelled }))

-- Two saves, the second only if the first does not raise.
unfoldable pub save_both : Shift → Shift → Roster → Result (Unit {0}) × Roster
save_both s t r =
    let (saved, r') = save s r in elim saved [ ok _ ↦ save t r' | err e ↦ (err e, r') ]

-- The swap itself. Both shifts are read before either is saved.
unfoldable pub swap_shifts : Option ℕ → ℕ → ℕ → Roster → Result (Unit {0}) × Roster
swap_shifts none original staff =
    with_shift original λ s. save (record s { assigned_staff = staff })
swap_shifts (some target) original staff = with_shift original λ s. with_shift target λ t.
    save_both (record s { assigned_staff = t.assigned_staff })
      (record t { assigned_staff = s.assigned_staff })

abbrev pub with_swap :
    ℕ
    → (ShiftSwapRequest → Roster → Result (Unit {0}) × Roster)
    → Roster
    → Result (Unit {0}) × Roster
with_swap i f r = elim (find_first (swap_is i) r.swaps) [
  | none ↦ (err does_not_exist, r)
  | some q ↦ f q r
]

-- The save of an answer. The columns that are saved do not include the status, which stays what it
-- was.
abbrev pub answered : ℕ → ℕ → ShiftSwapRequest → Roster → Roster
answered now who q r = record r {
  swaps =
      update_first (swap_is q.id) (λ _. record q { approved_by = some who; approved_at = some now })
        r.swaps;
}

unfoldable pub approve : ℕ → ℕ → ℕ → Roster → Result (Unit {0}) × Roster
approve now who i = with_swap i λ q.
    require (is_pending q.status)
      λ r. swap_shifts q.target_shift q.original_shift q.requested_with (answered now who q r)

unfoldable pub reject : ℕ → ℕ → ℕ → Roster → Result (Unit {0}) × Roster
reject now who i = with_swap i λ q. require (is_pending q.status) λ r. (ok tt, answered now who q r)
