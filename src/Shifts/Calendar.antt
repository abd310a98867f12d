-- ===== src/Shifts/Calendar.antt =====
-- `get_calendar_shifts` of core/common/includes/shifts.py. A time is a number of minutes, so that
-- its date is a number of days.
pub mod Occurrences
use clustr_be.Base.{
  ◌%◌, ℕ, zero, suc, ◌+◌, ◌-◌, ◌*◌, ◌/◌, Bool, true, false, ◌&&◌, Option, none, some, List, [], ◌∷◌,
  ◌++◌, ◌==◌, ltb, leb, if◌then◌else◌, keep, map,
}
use clustr_be.Shifts.{Shift, ShiftStatus}

-- The texts that `recurrence_pattern.upper()` is compared with, and every other.
pub data Pattern : Type 0 where
  daily weekly biweekly monthly unknown : Pattern

-- A shift with the columns that the calendar reads.
pub record CalendarShift : Type 0 where
  pub shift : Shift
  pub shift_type : ℕ
  pub is_recurring : Bool
  pub recurrence_pattern : Pattern

-- The attributes and `replace` of a datetime, `monthrange(year, month)[1]` of the module calendar,
-- and `sorted` by the start.
pub record Python : Type 0 where
  pub year : ℕ → ℕ
  pub month : ℕ → ℕ
  pub day : ℕ → ℕ
  pub replace : ℕ → ℕ → ℕ → ℕ → ℕ
  pub monthrange : ℕ → ℕ → ℕ
  pub sort_by_start : List Shift → List Shift

abbrev pub date : ℕ → ℕ
date t = t / 1440

abbrev pub days : ℕ → ℕ
days n = 1440 * n

-- The jump towards the range. For MONTHLY and an unknown pattern there is none.
unfoldable pub fast_forward : Pattern → ℕ → ℕ → ℕ
fast_forward pattern start_date t =
    if ltb (date t) start_date
    then (let delta = start_date - date t in
        elim pattern [
          | daily ↦ t + days delta
          | weekly ↦ t + days (7 * (delta / 7))
          | biweekly ↦ t + days (14 * (delta / 14))
          | monthly ↦ t
          | unknown ↦ t
        ])
    else t

-- The same day of the next month, or its last day.
unfoldable pub next_month : Python → ℕ → ℕ
next_month py t =
    let y = py.year t + py.month t / 12 in
    let m = (py.month t % 12) + 1 in
    let last = py.monthrange y m in
    py.replace t y m (if leb (py.day t) last then py.day t else last)

-- The next occurrence; none where the loop breaks.
abbrev pub next_occurrence : Python → Pattern → ℕ → Option ℕ
next_occurrence py daily t = some (t + days 1)
next_occurrence py weekly t = some (t + days 7)
next_occurrence py biweekly t = some (t + days 14)
next_occurrence py monthly t = some (next_month py t)
next_occurrence py unknown t = none

-- `while current_start.date() <= end_date`, for at most `fuel` rounds: whether the loop has ended by
-- then, by its condition or by its `break`, and the starts that it has found.
unfoldable pub occurrences : Python → Pattern → ℕ → ℕ → ℕ → ℕ → Bool × List ℕ
occurrences py pattern start_date end_date zero t = (ltb end_date (date t), [])
occurrences py pattern start_date end_date (suc fuel) t =
    let later : Bool × List ℕ = elim (next_occurrence py pattern t) [
      | none ↦ (true, [])
      | some t' ↦ occurrences py pattern start_date end_date fuel t'
    ] in
    if leb (date t) end_date
    then (later.0, if leb start_date (date t) then t ∷ later.1 else later.1)
    else (true, [])

-- Every round moves on by a day at least.
abbrev pub enough : ℕ → ℕ → ℕ
enough end_date t = (end_date + 1) - date t

-- The virtual shift of an occurrence.
abbrev pub instance_at : Shift → ℕ → Shift
instance_at s t = record s {
  start_time = t;
  end_time = t + (s.end_time - s.start_time);
  actual_start_time = none;
  actual_end_time = none;
}

-- The starts of a recurring shift in the range.
unfoldable pub expand : Python → ℕ → ℕ → CalendarShift → List ℕ
unfolding fast_forward occurrences
expand py start_date end_date c =
    let t = fast_forward c.recurrence_pattern start_date c.shift.start_time in
    (occurrences py c.recurrence_pattern start_date end_date (enough end_date t) t).1

unfoldable pub expand_shift : Python → ℕ → ℕ → CalendarShift → List Shift
unfolding expand
expand_shift py start_date end_date c =
    if c.is_recurring
    then map (instance_at c.shift) (expand py start_date end_date c)
    else c.shift ∷ []

abbrev pub status_number : ShiftStatus → ℕ
status_number ShiftStatus.scheduled = 0
status_number ShiftStatus.in_progress = 1
status_number ShiftStatus.completed = 2
status_number ShiftStatus.cancelled = 3
status_number ShiftStatus.no_show = 4

abbrev pub passes_filter : Option ℕ → ℕ → Bool
passes_filter none n = true
passes_filter (some m) n = n == m

pub record Filters : Type 0 where
  pub staff_id : Option ℕ
  pub status : Option ShiftStatus
  pub shift_type : Option ℕ

abbrev pub status_filter : Option ShiftStatus → Option ℕ
status_filter none = none
status_filter (some s) = some (status_number s)

-- The queries before the loop.
unfoldable pub is_base_shift : ℕ → ℕ → ℕ → Filters → CalendarShift → Bool
is_base_shift cluster start_date end_date f c =
    (c.shift.cluster == cluster)
    && (passes_filter f.staff_id c.shift.assigned_staff
        && (passes_filter (status_filter f.status) (status_number c.shift.status)
            && (passes_filter f.shift_type c.shift_type
                && (leb (date c.shift.start_time) end_date
                    && (if c.is_recurring then true else leb start_date (date c.shift.end_time))))))

unfoldable pub expand_all : Python → ℕ → ℕ → List CalendarShift → List Shift
unfolding expand_shift
expand_all py start_date end_date [] = []
expand_all py start_date end_date (c ∷ cs) =
    expand_shift py start_date end_date c ++ expand_all py start_date end_date cs

unfoldable pub get_calendar_shifts : Python → ℕ → ℕ → ℕ → Filters → List CalendarShift → List Shift
unfolding is_base_shift expand_all
get_calendar_shifts py cluster start_date end_date f cs =
    py.sort_by_start
      (expand_all py start_date end_date (keep (is_base_shift cluster start_date end_date f) cs))
