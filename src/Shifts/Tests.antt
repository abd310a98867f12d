-- ===== src/Shifts/Tests.antt =====
-- A roster of two guards, runs of the code on it, and the theorems at it.
use clustr_be.Base.Int.{◌-ℤ◌, pos}
use clustr_be.Shifts.Attendance.{
  ShiftAttendance, actual_work_duration, calculate_all, attendance_adds_up,
}
use clustr_be.Base.{
  ◌+◌, ◌-◌, ◌*◌, ◌/◌, ◌%◌, ◌≤◌, ◌↔◌, inl, inr, true, map, contains, ℕ, ◌≡◌, refl, none, some, List,
  [], ◌∷◌, arith, find_first, keep, length, ◌<◌,
}
use clustr_be.Payments.Store.{ok, err, validation_error, name_error}
use clustr_be.Shifts.{
  Shift, ShiftSwapRequest, Roster, scheduled, pending, swap_is, approve, reject, clock_in,
  clock_out, mark_no_show, cancel,
}
use clustr_be.Shifts.Calls.{create, check_conflicts, is_missed, mark_missed_shifts}
use clustr_be.Shifts.Calendar.{
  Python, CalendarShift, Filters, biweekly, monthly, date, days, next_month, occurrences, expand,
  get_calendar_shifts,
}
use clustr_be.Shifts.Calendar.Occurrences.{IsForward, occurrences-enough, expand_lem}
use clustr_be.Shifts.Disjoint.{IsDisjoint}
use clustr_be.Shifts.Served.{
  Request, create_shift, clock_in_shift, mark_missed, approve_swap, serve_all, serve_all-IsDisjoint,
}
use clustr_be.Shifts.Missed.{mark_missed_shifts_succeeds, transitions_succeed}
use clustr_be.Shifts.Swaps.{answers_stay_pending}

abbrev shift_of : ℕ → ℕ → ℕ → ℕ → Shift
shift_of id staff from to = record {
  id = id;
  cluster = 1;
  assigned_staff = staff;
  start_time = from;
  end_time = to;
  status = scheduled;
  actual_start_time = none;
  actual_end_time = none;
}

abbrev night : Shift
night = shift_of 1 7 20 30

abbrev day : Shift
day = shift_of 2 8 30 40

abbrev offer : ShiftSwapRequest
offer = record {
  id = 3;
  original_shift = 1;
  requested_with = 8;
  target_shift = some 2;
  status = pending;
  approved_by = none;
  approved_at = none;
}

abbrev guards : Roster
guards = record { shifts = night ∷ day ∷ []; swaps = offer ∷ []; next_id = 4 }

guards-IsDisjoint : IsDisjoint guards
guards-IsDisjoint = ground arith

-- A shift that overlaps another of the same guard is refused, the next one is not.
overlapping_refused : (create 1 7 25 35 scheduled guards).0 ≡ err validation_error
unfolding create check_conflicts
overlapping_refused = refl

abbrev requests : List Request
requests =
    create_shift 1 7 30 35 scheduled
    ∷ approve_swap 10 5 3
    ∷ clock_in_shift 21 1
    ∷ mark_missed 31
    ∷ []

serve_all-IsDisjoint_example : IsDisjoint (serve_all requests guards)
serve_all-IsDisjoint_example = serve_all-IsDisjoint requests guards guards-IsDisjoint

mark_missed_shifts_succeeds_example :
    (mark_missed_shifts 31 guards).0 ≡ ok (length (keep (is_missed 31) guards.shifts))
mark_missed_shifts_succeeds_example = mark_missed_shifts_succeeds 31 guards guards-IsDisjoint

answers_stay_pending_example :
    let row = record offer { approved_by = some 5; approved_at = some 10 } in
    (find_first (swap_is 3) (approve 10 5 3 guards).1.swaps ≡ some row)
    × (find_first (swap_is 3) (reject 10 5 3 guards).1.swaps ≡ some row)
    × ((reject 10 5 3 guards).0 ≡ ok tt)
    × (row.status ≡ pending)
answers_stay_pending_example = answers_stay_pending 10 5 3 offer guards refl refl refl

-- A calendar whose months have thirty days.
abbrev thirty : Python
thirty = record {
  year = λ t. t / 518400;
  month = λ t. ((t % 518400) / 43200) + 1;
  day = λ t. ((t % 43200) / 1440) + 1;
  replace = λ t y m d. 1440 * (360 * y + (30 * (m - 1) + (d - 1))) + (t % 1440);
  monthrange = λ y m. 30;
  sort_by_start = λ ss. ss;
}

thirty-IsForward : IsForward thirty
thirty-IsForward = record {
  months = λ t. (omega arith, omega arith);
  later = λ t y m d h. elim h [ inl earlier ↦ omega arith | inr same ↦ omega arith ];
}

-- A shift of the second day at eight, every second week.
abbrev cleaning : CalendarShift
cleaning = record {
  shift = shift_of 9 8 1920 2400;
  shift_type = 0;
  is_recurring = true;
  recurrence_pattern = biweekly;
}

abbrev rent : CalendarShift
rent = record cleaning { recurrence_pattern = monthly }

abbrev all_kinds : Filters
all_kinds = record { staff_id = none; status = none; shift_type = none }

-- The range is days 20 to 60.
cleaning_starts : expand thirty 20 60 cleaning ≡ 42240 ∷ 62400 ∷ 82560 ∷ []
unfolding expand
cleaning_starts = refl

cleaning_shown :
    map (λ s. s.start_time) (get_calendar_shifts thirty 1 20 60 all_kinds (cleaning ∷ rent ∷ []))
    ≡ 42240 ∷ 62400 ∷ 82560 ∷ 45120 ∷ []
unfolding get_calendar_shifts next_month
cleaning_shown = refl

occurrences-enough_example :
    ((occurrences thirty monthly 20 60 100 1920).0 ≡ true)
    × (occurrences thirty monthly 20 60 101 1920 ≡ occurrences thirty monthly 20 60 100 1920)
occurrences-enough_example =
    occurrences-enough thirty monthly 20 60 100 1920 thirty-IsForward (omega arith)

expand_lem_example :
    (contains 62400 (expand thirty 20 60 cleaning) ≡ true)
    ↔ ((k : ℕ) × (62400 ≡ 1920 + days (14 * k)) × (20 ≤ date 62400) × (date 62400 ≤ 60))
expand_lem_example = expand_lem thirty cleaning 14 20 60 62400 refl

-- Seven minutes late, and twenty past the end.
abbrev watch : ShiftAttendance
watch = record {
  start_time = 36000;
  end_time = 64800;
  clock_in_time = some 36420;
  clock_out_time = some 66000;
  total_break_duration = 1800;
  overtime_hours = 0;
  late_arrival_minutes = 0;
  early_departure_minutes = 0;
}

worked : actual_work_duration watch ≡ pos 27780
unfolding actual_work_duration ◌-ℤ◌
worked = refl

transitions_succeed_example :
    ((clock_in 21 1 guards).0 ≡ ok tt)
    × ((clock_out 21 1 guards).0 ≡ err name_error)
    × ((mark_no_show 1 guards).0 ≡ ok tt)
    × ((cancel 1 guards).0 ≡ ok tt)
transitions_succeed_example = transitions_succeed 21 night guards guards-IsDisjoint refl refl

attendance_adds_up_example :
    let b = calculate_all watch in
    let accounted = 29580 + 60 * b.late_arrival_minutes + 60 * b.early_departure_minutes in
    (accounted ≤ 28800 + b.overtime_hours)
    × (28800 + b.overtime_hours < accounted + 120)
    × (b.overtime_hours * b.early_departure_minutes ≡ 0)
attendance_adds_up_example =
    attendance_adds_up watch 36420 66000 refl refl (omega arith) (omega arith) (omega arith)
