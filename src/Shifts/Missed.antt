-- ===== src/Shifts/Missed.antt =====
-- A shift that is active passes its validation, so that its transitions and the marking of missed
-- shifts do not raise.
use clustr_be.Base.{
  ℕ, ◌+◌, ◌<◌, ◌≡◌, refl, Bool, true, false, Option, none, some, List, [], ◌∷◌, arith, any,
  find_first, update_first, keep, length, if◌then◌else◌,
}
use clustr_be.Base.Lists.{find_first-update_other}
use clustr_be.Payments.Store.{ok, err, name_error}
use clustr_be.Shifts.{
  Shift, Roster, ShiftStatus, is_active, is_scheduled, is_in_progress, is_overlapping, shift_is,
  clean, save, clock_in, clock_out, mark_no_show, cancel, no_show, in_progress, completed,
  cancelled,
}
use clustr_be.Shifts.Calls.{mark_all, is_missed, mark_missed_shifts}
use clustr_be.Shifts.Disjoint.{clashes, AreDisjoint, IsDisjoint, save-IsDisjoint}

no_clash_fits :
    (s : Shift) (ss : List Shift)
    → is_active s.status ≡ true
    → any (clashes s) ss ≡ false
    → any (is_overlapping s) ss ≡ false
no_clash_fits s [] a h = refl
no_clash_fits s (t ∷ ss) a h = ground (arith, no_clash_fits s ss a)

no_clash_with :
    (t s : Shift) (ss : List Shift)
    → any (clashes t) ss ≡ false
    → find_first (shift_is s.id) ss ≡ some s
    → clashes t s ≡ false
no_clash_with t s [] h e = cc
no_clash_with t s (u ∷ ss) h e = ground (arith, no_clash_with t s ss)

other_fits :
    (s t : Shift) → is_active s.status ≡ true → clashes t s ≡ false → is_overlapping s t ≡ false
other_fits s t a h = ground arith

active_fits :
    (n : ℕ) (s : Shift) (ss : List Shift)
    → AreDisjoint n ss
    → find_first (shift_is s.id) ss ≡ some s
    → is_active s.status ≡ true
    → (s.start_time < s.end_time) × (any (is_overlapping s) ss ≡ false)
active_fits n s [] h e a = cc
active_fits n s (t ∷ ss) h e a = ground (
  arith,
  active_fits n s ss h.4,
  no_clash_fits s ss a,
  no_clash_with t s ss h.3,
  other_fits s t a,
)

-- The save of an active shift whose status and actual times have been set.
save_active :
    (from to : Option ℕ) (status : ShiftStatus) (s : Shift) (r : Roster)
    → IsDisjoint r
    → find_first (shift_is s.id) r.shifts ≡ some s
    → is_active s.status ≡ true
    → let new = record s { actual_start_time = from; actual_end_time = to; status = status } in
      save new r ≡ (ok tt, record r { shifts = update_first (shift_is s.id) (λ _. new) r.shifts })
unfolding save clean
save_active from to status s r h e a = ground (arith, active_fits r.next_id s r.shifts h e a)

-- Among disjoint shifts, the transitions of an active one never meet the validation: clocking in
-- and marking as no show raise only where it is not scheduled, clocking out only where it is not in
-- progress, and cancelling never.
pub transitions_succeed :
    (time : ℕ) (s : Shift) (r : Roster)
    → IsDisjoint r
    → find_first (shift_is s.id) r.shifts ≡ some s
    → is_active s.status ≡ true
    → ((clock_in time s.id r).0 ≡ (if is_scheduled s.status then ok tt else err name_error))
      × ((clock_out time s.id r).0 ≡ (if is_in_progress s.status then ok tt else err name_error))
      × ((mark_no_show s.id r).0 ≡ (if is_scheduled s.status then ok tt else err name_error))
      × ((cancel s.id r).0 ≡ ok tt)
unfolding clock_in clock_out mark_no_show cancel
transitions_succeed time s r h e a = (
  ground (arith, save_active (some time) s.actual_end_time in_progress s r h e a),
  ground (arith, save_active s.actual_start_time (some time) completed s r h e a),
  ground (arith, save_active s.actual_start_time s.actual_end_time no_show s r h e a),
  ground (arith, save_active s.actual_start_time s.actual_end_time cancelled s r h e a),
)

-- Active rows of the table, each once.
abbrev Queued : List Shift → List Shift → Type 0
Queued [] ss = Unit
Queued (s ∷ q) ss =
    (find_first (shift_is s.id) ss ≡ some s)
    × (is_active s.status ≡ true)
    × (find_first (shift_is s.id) q ≡ none)
    × Queued q ss

Queued-update :
    (s new : Shift) (q ss : List Shift)
    → Queued q ss
    → find_first (shift_is s.id) q ≡ none
    → find_first (shift_is s.id) ss ≡ some s
    → new.id ≡ s.id
    → Queued q (update_first (shift_is s.id) (λ _. new) ss)
Queued-update s new [] ss h k e i = tt
Queued-update s new (t ∷ q) ss h k e i = ground (
  arith,
  Queued-update s new q ss h.3,
  find_first-update_other (shift_is t.id) (shift_is s.id) s new ss e,
)

Queued-cons :
    (t : Shift) (q ss : List Shift)
    → Queued q ss
    → find_first (shift_is t.id) q ≡ none
    → Queued q (t ∷ ss)
Queued-cons t [] ss h k = tt
Queued-cons t (s ∷ q) ss h k = ground (arith, Queued-cons t q ss h.3)

keep-fresh :
    (p : Shift → Bool) (i : ℕ) (ss : List Shift)
    → find_first (shift_is i) ss ≡ none
    → find_first (shift_is i) (keep p ss) ≡ none
keep-fresh p i [] h = refl
keep-fresh p i (s ∷ ss) h = ground (arith, keep-fresh p i ss)

missed_active : (now : ℕ) (s : Shift) → is_missed now s ≡ true → is_active s.status ≡ true
missed_active now s h = ground arith

missed-Queued :
    (now n : ℕ) (ss : List Shift) → AreDisjoint n ss → Queued (keep (is_missed now) ss) ss
missed-Queued now n [] h = tt
missed-Queued now n (s ∷ ss) h = ground (
  arith,
  Queued-cons s (keep (is_missed now) ss) ss (missed-Queued now n ss h.4),
  keep-fresh (is_missed now) s.id ss h.1,
  missed_active now s,
)

mark_all_succeeds :
    (n : ℕ) (q : List Shift) (r : Roster)
    → IsDisjoint r
    → Queued q r.shifts
    → (mark_all n q r).0 ≡ ok (n + length q)
unfolding mark_all
mark_all_succeeds n [] r h k = ground arith
mark_all_succeeds n (s ∷ q) r h k =
    let new = record s { status = no_show } in
    let r' = record r { shifts = update_first (shift_is s.id) (λ _. new) r.shifts } in
    let saved = save_active s.actual_start_time s.actual_end_time no_show s r h k.0 k.1 in
    ground (
      arith,
      saved,
      mark_all_succeeds (n + 1) q r' (rw saved at (save-IsDisjoint new r h))
          (Queued-update s new q r.shifts k.3 k.2 k.0 refl),
    )

none_before : (n : ℕ) → 0 + n ≡ n
none_before n = omega arith

-- Among disjoint shifts, the marking of missed shifts never raises half way: it returns, with the
-- number of the scheduled shifts whose start has passed without a clock-in.
pub mark_missed_shifts_succeeds :
    (now : ℕ) (r : Roster)
    → IsDisjoint r
    → (mark_missed_shifts now r).0 ≡ ok (length (keep (is_missed now) r.shifts))
unfolding mark_missed_shifts
mark_missed_shifts_succeeds now r h = rw (none_before (length (keep (is_missed now) r.shifts))) at (
    mark_all_succeeds 0 (keep (is_missed now) r.shifts) r h
      (missed-Queued now r.next_id r.shifts h))
