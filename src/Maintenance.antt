-- ===== src/Maintenance.antt =====
-- core/common/models/maintenance/maintenance.py and property.py, and the functions of
-- core/common/includes/maintenance.py that change a log. An instant is a number of seconds, of
-- which 86400 make a day; a date is a number of days.
pub mod Lifecycle
mod Tests
use clustr_be.Base.{
  ℕ, ◌+◌, ◌*◌, ◌/◌, Bool, true, false, ◌&&◌, Option, none, some, List, [], ◌∷◌, leb, not,
  if◌then◌else◌, is_some,
}
use clustr_be.Base.Int.{ℤ, pos, ◌-ℤ◌}
use clustr_be.Payments.Store.{Result, ok, err, name_error}

-- `create_log` writes the text pending, which is none of the choices.
pub data Status : Type 0 where
  scheduled in_progress completed cancelled postponed pending : Status

pub record MaintenanceLog : Type 0 where
  pub id : ℕ
  pub cluster : ℕ
  pub requested_by : ℕ
  pub status : Status
  pub performed_by : Option ℕ
  pub scheduled_date : Option ℕ
  pub started_at : Option ℕ
  pub completed_at : Option ℕ
  pub actual_duration : Option ℤ
  pub warranty_expiry : Option ℕ
  pub is_under_warranty : Bool
  pub last_modified_by : Option ℕ

abbrev pub is_scheduled : Status → Bool
is_scheduled scheduled = true
is_scheduled _ = false

abbrev pub is_in_progress : Status → Bool
is_in_progress in_progress = true
is_in_progress _ = false

abbrev pub is_completed : Status → Bool
is_completed completed = true
is_completed _ = false

abbrev pub status_number : Status → ℕ
status_number scheduled = 0
status_number in_progress = 1
status_number completed = 2
status_number cancelled = 3
status_number postponed = 4
status_number pending = 5

abbrev pub same_status : Status → Status → Bool
same_status a b = leb (status_number a) (status_number b) && leb (status_number b) (status_number a)

-- The time stamps that a change of the status sets.
unfoldable pub stamp : ℕ → Status → MaintenanceLog → MaintenanceLog
stamp now old m =
    if same_status old m.status
    then m
    else if is_in_progress m.status && not (is_some m.started_at)
    then record m { started_at = some now }
    else if is_completed m.status && not (is_some m.completed_at)
    then record m { completed_at = some now }
    else m

-- `completed_at - started_at`, which is negative where the work ended before it began.
abbrev pub duration_of : Option ℕ → Option ℕ → Option ℤ → Option ℤ
duration_of (some s) (some c) d = some (pos c -ℤ pos s)
duration_of _ _ d = d

abbrev pub warranty_of : ℕ → Option ℕ → Bool → Bool
warranty_of now none b = b
warranty_of now (some day) b = leb (now / 86400) day

unfoldable pub save : ℕ → Status → MaintenanceLog → MaintenanceLog
unfolding stamp
save now old m =
    let s = stamp now old m in
    record s {
      actual_duration = duration_of s.started_at s.completed_at s.actual_duration;
      is_under_warranty = warranty_of now s.warranty_expiry s.is_under_warranty;
    }

abbrev pub or_kept : Option ℕ → Option ℕ → Option ℕ
or_kept none a = a
or_kept (some b) a = some b

-- A refusal is a `NameError`: the file does not import the `ValidationError` that it raises. The
-- notes are texts that nothing reads.
unfoldable pub start_maintenance : ℕ → Option ℕ → MaintenanceLog → Result MaintenanceLog
unfolding save
start_maintenance now started_by m =
    if not (is_scheduled m.status)
    then err name_error
    else ok (
        save now m.status (record m {
          status = in_progress;
          started_at = some now;
          last_modified_by = or_kept started_by m.last_modified_by;
        }))

unfoldable pub complete_maintenance : ℕ → Option ℕ → MaintenanceLog → Result MaintenanceLog
unfolding save
complete_maintenance now completed_by m =
    if not (is_in_progress m.status)
    then err name_error
    else ok (
        save now m.status (record m {
          status = completed;
          completed_at = some now;
          last_modified_by = or_kept completed_by m.last_modified_by;
        }))

unfoldable pub cancel_maintenance : ℕ → Option ℕ → MaintenanceLog → Result MaintenanceLog
unfolding save
cancel_maintenance now cancelled_by m =
    if is_completed m.status
    then err name_error
    else ok (
        save now m.status (record m {
          status = cancelled;
          last_modified_by = or_kept cancelled_by m.last_modified_by;
        }))

unfoldable pub postpone_maintenance : ℕ → ℕ → Option ℕ → MaintenanceLog → Result MaintenanceLog
unfolding save
postpone_maintenance now new_date postponed_by m =
    if is_completed m.status
    then err name_error
    else ok (
        save now m.status (record m {
          scheduled_date = some new_date;
          status = postponed;
          last_modified_by = or_kept postponed_by m.last_modified_by;
        }))

-- `maintenance.update_status`: the attributes for who and when are no columns.
unfoldable pub update_status : ℕ → Status → MaintenanceLog → MaintenanceLog
unfolding save
update_status now new_status m = save now m.status (record m { status = new_status })

unfoldable pub assign_log : ℕ → ℕ → ℕ → MaintenanceLog → MaintenanceLog
unfolding save
assign_log now assigned_to assigned_by m =
    save now m.status
      (record m { performed_by = some assigned_to; last_modified_by = some assigned_by })

-- `maintenance.create_log`: the row, saved for the first time.
unfoldable pub create_log : ℕ → ℕ → ℕ → ℕ → MaintenanceLog
create_log now id cluster requested_by = record {
  id = id;
  cluster = cluster;
  requested_by = requested_by;
  status = pending;
  performed_by = none;
  scheduled_date = none;
  started_at = none;
  completed_at = none;
  actual_duration = none;
  warranty_expiry = none;
  is_under_warranty = false;
  last_modified_by = none;
}

-- A log is overdue where it is neither completed nor cancelled and its date is past.
unfoldable pub is_overdue : ℕ → MaintenanceLog → Bool
is_overdue now m = elim m.status [
  | completed ↦ false
  | cancelled ↦ false
  | other ↦ elim m.scheduled_date [ none ↦ false | some d ↦ leb (d + 1) now ]
]

-- property.py: the schedule of a preventive maintenance.
pub data FrequencyType : Type 0 where
  daily weekly monthly quarterly semi_annual annual custom : FrequencyType

abbrev pub days_of : FrequencyType → ℕ
days_of daily = 1
days_of weekly = 7
days_of monthly = 30
days_of quarterly = 90
days_of semi_annual = 180
days_of annual = 365
days_of custom = 30

unfoldable pub calculate_next_due_date : FrequencyType → ℕ → ℕ → ℕ
calculate_next_due_date type value due = due + 86400 * (days_of type * value)
