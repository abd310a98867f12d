-- ===== src/Shifts/Calls.antt =====
-- The functions of core/common/includes/shifts.py that change shifts. `clock_in` and `clock_out` do
-- not look at the status that they overwrite.
use clustr_be.Base.{ℕ, ◌+◌, Bool, ◌&&◌, none, some, List, [], ◌∷◌, ltb, not, ◌==◌, keep, is_some}
use clustr_be.Payments.Store.{Result, ok, err, validation_error}
use clustr_be.Shifts.{
  Shift, Roster, ShiftStatus, in_progress, completed, no_show, is_active, is_scheduled, clean, save,
  with_shift,
}

unfoldable pub clock_in : ℕ → ℕ → Roster → Result (Unit {0}) × Roster
clock_in time i =
    with_shift i λ s. save (record s { actual_start_time = some time; status = in_progress })

unfoldable pub clock_out : ℕ → ℕ → Roster → Result (Unit {0}) × Roster
clock_out time i =
    with_shift i λ s. save (record s { actual_end_time = some time; status = completed })

-- The query of `check_conflicts`, where no shift is excluded.
abbrev pub is_conflict : ℕ → ℕ → ℕ → ℕ → Shift → Bool
is_conflict cluster staff start_time end_time t =
    (t.cluster == cluster)
    && ((t.assigned_staff == staff)
        && (ltb t.start_time end_time && (ltb start_time t.end_time && is_active t.status)))

unfoldable pub check_conflicts : ℕ → ℕ → ℕ → ℕ → List Shift → List Shift
check_conflicts cluster staff start_time end_time ss =
    keep (is_conflict cluster staff start_time end_time) ss

-- `Shift.objects.create`, which validates the new row.
unfoldable pub insert : Shift → Roster → Result ℕ × Roster
insert s r =
    let new = record s { id = r.next_id } in
    elim (clean new r.shifts) [
      | ok _ ↦ (ok r.next_id, record r { shifts = new ∷ r.shifts; next_id = r.next_id + 1 })
      | err e ↦ (err e, r)
    ]

abbrev pub new_shift : ℕ → ℕ → ℕ → ℕ → ShiftStatus → Shift
new_shift cluster staff start_time end_time status = record {
  id = 0;
  cluster = cluster;
  assigned_staff = staff;
  start_time = start_time;
  end_time = end_time;
  status = status;
  actual_start_time = none;
  actual_end_time = none;
}

-- The identifier of the new shift. A status may stand among the further columns.
unfoldable pub create : ℕ → ℕ → ℕ → ℕ → ShiftStatus → Roster → Result ℕ × Roster
create cluster staff start_time end_time status r =
    elim (check_conflicts cluster staff start_time end_time r.shifts) [
      | _ ∷ _ ↦ (err validation_error, r)
      | [] ↦ insert (new_shift cluster staff start_time end_time status) r
    ]

abbrev pub is_missed : ℕ → Shift → Bool
is_missed now s =
    ltb s.start_time now && (is_scheduled s.status && not (is_some s.actual_start_time))

-- The loop of `mark_missed_shifts` over the shifts that the query gave.
unfoldable pub mark_all : ℕ → List Shift → Roster → Result ℕ × Roster
mark_all count [] r = (ok count, r)
mark_all count (s ∷ ss) r =
    let (saved, r') = save (record s { status = no_show }) r in
    elim saved [ ok _ ↦ mark_all (count + 1) ss r' | err e ↦ (err e, r') ]

unfoldable pub mark_missed_shifts : ℕ → Roster → Result ℕ × Roster
mark_missed_shifts now r = mark_all 0 (keep (is_missed now) r.shifts) r
