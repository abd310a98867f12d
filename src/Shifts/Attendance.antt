-- ===== src/Shifts/Attendance.antt =====
-- core/common/models/shift/shift_attendance.py. Instants and durations are seconds; a shift has a
-- start and an end.
use clustr_be.Base.{
  ℕ, ◌+◌, ◌-◌, ◌*◌, ◌/◌, ◌≤◌, ◌<◌, ◌≡◌, Option, none, some, arith, ltb, if◌then◌else◌,
}
use clustr_be.Base.Int.{ℤ, pos, ◌-ℤ◌}

pub record ShiftAttendance : Type 0 where
  pub start_time : ℕ
  pub end_time : ℕ
  pub clock_in_time : Option ℕ
  pub clock_out_time : Option ℕ
  pub total_break_duration : ℕ
  pub overtime_hours : ℕ
  pub late_arrival_minutes : ℕ
  pub early_departure_minutes : ℕ

unfoldable pub actual_work_duration : ShiftAttendance → ℤ
actual_work_duration a = elim a.clock_in_time [
  | none ↦ pos 0
  | some i ↦ elim a.clock_out_time [
    | none ↦ pos 0
    | some o ↦ pos o -ℤ pos i -ℤ pos a.total_break_duration
  ]
]

-- What `b` is later than `a`.
abbrev pub excess : ℕ → ℕ → ℕ
excess a b = if ltb a b then b - a else 0

unfoldable pub calculate_overtime : ShiftAttendance → ShiftAttendance
calculate_overtime a = elim a.clock_out_time [
  | none ↦ a
  | some o ↦ record a { overtime_hours = excess a.end_time o }
]

unfoldable pub calculate_late_arrival : ShiftAttendance → ShiftAttendance
calculate_late_arrival a = elim a.clock_in_time [
  | none ↦ a
  | some i ↦ record a { late_arrival_minutes = excess a.start_time i / 60 }
]

unfoldable pub calculate_early_departure : ShiftAttendance → ShiftAttendance
calculate_early_departure a = elim a.clock_out_time [
  | none ↦ a
  | some o ↦ record a { early_departure_minutes = excess o a.end_time / 60 }
]

-- The three calculations one after the other.
abbrev pub calculate_all : ShiftAttendance → ShiftAttendance
calculate_all a = calculate_early_departure (calculate_late_arrival (calculate_overtime a))

-- For someone who clocks in, not before the start of the shift, and out, not before clocking in,
-- the shift and the overtime are the time between the clocks and the minutes missed at both
-- ends, up to less than a minute for each of the two, and overtime and minutes missed at the
-- end exclude each other.
pub attendance_adds_up :
    (a : ShiftAttendance) (i o : ℕ)
    → a.clock_in_time ≡ some i
    → a.clock_out_time ≡ some o
    → a.start_time ≤ i
    → i ≤ o
    → a.start_time ≤ a.end_time
    → let b = calculate_all a in
      let shift = a.end_time - a.start_time in
      let accounted = (o - i) + 60 * b.late_arrival_minutes + 60 * b.early_departure_minutes in
      (accounted ≤ shift + b.overtime_hours)
      × (shift + b.overtime_hours < accounted + 120)
      × (b.overtime_hours * b.early_departure_minutes ≡ 0)
unfolding calculate_overtime calculate_late_arrival calculate_early_departure
attendance_adds_up a i o hi ho hs hio hse = (ground arith, ground arith, ground arith)
