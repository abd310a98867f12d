-- ===== src/Tasks.antt =====
-- Tasks: the methods of `class Task`, core/common/models/task/task.py. An object that a call
-- changes is a row beside the table; `save` writes its fields back.
pub mod Calls
pub mod Kept
pub mod Created
mod Tests
use clustr_be.Base.{
  ℕ, Bool, true, false, ◌&&◌, ◌||◌, Option, none, some, List, leb, not, ◌==◌, if◌then◌else◌,
  find_first, update_first, is_some,
}
use clustr_be.Payments.Store.{Result, ok, err, does_not_exist, name_error}

pub data TaskStatus : Type 0 where
  pending assigned in_progress completed cancelled overdue : TaskStatus

-- Texts, the priority and the hours are left out.
pub record Task : Type 0 where
  pub id : ℕ
  pub status : TaskStatus
  pub assigned_to : Option ℕ
  pub created_by : ℕ
  pub due_date : Option ℕ
  pub started_at : Option ℕ
  pub completed_at : Option ℕ
  pub escalated_at : Option ℕ
  pub escalated_to : Option ℕ
  pub last_modified_by : Option ℕ

-- The table of tasks, and the tasks of the rows of TaskStatusHistory.
pub record Board : Type 0 where
  pub tasks : List Task
  pub status_history : List ℕ

abbrev pub Method : Type 0
Method = Board → Result (Unit {0}) × Board

abbrev pub task_is : ℕ → Task → Bool
task_is i t = t.id == i

abbrev pub same_status : TaskStatus → TaskStatus → Bool
same_status pending pending = true
same_status assigned assigned = true
same_status in_progress in_progress = true
same_status completed completed = true
same_status cancelled cancelled = true
same_status overdue overdue = true
same_status _ _ = false

abbrev pub is_due : ℕ → Option ℕ → Bool
is_due now none = false
is_due now (some due) = leb due now

abbrev pub is_disordered : Option ℕ → Option ℕ → Bool
is_disordered none finish = false
is_disordered (some start) none = false
is_disordered (some start) (some finish) = leb finish start

-- `clean`: whether it raises. Both refusals name ValidationError, which is not imported.
unfoldable pub fails_clean : ℕ → Task → Bool
fails_clean now t = is_due now t.due_date || is_disordered t.started_at t.completed_at

-- The instants that `save` sets where the status changes.
unfoldable pub stamp : ℕ → Task → Task → Task
stamp now old t =
    if same_status old.status t.status
    then t
    else if same_status t.status in_progress && not (is_some t.started_at)
    then record t { started_at = some now }
    else if same_status t.status completed && not (is_some t.completed_at)
    then record t { completed_at = some now }
    else t

-- `save` with some fields: `write old t` is the row `old` with the fields of `t`. A task has an
-- identifier from the start, so the old row is looked up for a new one too.
unfoldable pub save : ℕ → (Task → Task → Task) → Task → Method
unfolding fails_clean stamp
save now write t b = elim (find_first (task_is t.id) b.tasks) [
  | none ↦ (err does_not_exist, b)
  | some old ↦
      let t' = stamp now old t in
      if fails_clean now t'
      then (err name_error, b)
      else (ok tt, record b { tasks = update_first (task_is t.id) (λ row. write row t') b.tasks })
]

-- The exception that ends a method after a save: a name that is not imported.
abbrev pub then_name_error : Method → Method
then_name_error m b =
    let (r, b') = m b in elim r [ ok _ ↦ (err name_error, b') | err e ↦ (err e, b') ]

abbrev pub is_assignable : TaskStatus → Bool
is_assignable s = same_status s pending || same_status s assigned

-- The fields that each method sets, and those that it saves.
abbrev pub assigned_row : ℕ → ℕ → Task → Task
assigned_row user assigned_by t = record t {
  assigned_to = some user;
  status = assigned;
  last_modified_by = some assigned_by;
}

abbrev pub write_modifier : Task → Task → Task
write_modifier old new = record old { last_modified_by = new.last_modified_by }

abbrev pub started_row : ℕ → ℕ → Task → Task
started_row now started_by t = record t {
  status = in_progress;
  started_at = some now;
  last_modified_by = some started_by;
}

abbrev pub write_started : Task → Task → Task
write_started old new = record old {
  status = new.status;
  started_at = new.started_at;
  last_modified_by = new.last_modified_by;
}

abbrev pub completed_row : ℕ → ℕ → Task → Task
completed_row now completed_by t = record t {
  status = completed;
  completed_at = some now;
  last_modified_by = some completed_by;
}

abbrev pub write_completed : Task → Task → Task
write_completed old new = record old {
  status = new.status;
  completed_at = new.completed_at;
  last_modified_by = new.last_modified_by;
}

abbrev pub cancelled_row : ℕ → Task → Task
cancelled_row cancelled_by t = record t { status = cancelled; last_modified_by = some cancelled_by }

abbrev pub write_cancelled : Task → Task → Task
write_cancelled old new = record old {
  status = new.status;
  last_modified_by = new.last_modified_by;
}

abbrev pub escalated_row : ℕ → ℕ → ℕ → Task → Task
escalated_row now user escalated_by t = record t {
  escalated_to = some user;
  escalated_at = some now;
  last_modified_by = some escalated_by;
}

abbrev pub write_escalated : Task → Task → Task
write_escalated old new = record old {
  escalated_to = new.escalated_to;
  escalated_at = new.escalated_at;
  last_modified_by = new.last_modified_by;
}

abbrev pub refuse_unless : Bool → Method → Method
refuse_unless c m b = if c then m b else (err name_error, b)

-- The only field that is saved is the one of the modifier; the history is not imported.
unfoldable pub assign_to : ℕ → ℕ → ℕ → Task → Method
unfolding save
assign_to now user assigned_by t =
    refuse_unless (is_assignable t.status)
      (then_name_error (save now write_modifier (assigned_row user assigned_by t)))

unfoldable pub start_task : ℕ → ℕ → Task → Method
unfolding save
start_task now started_by t =
    refuse_unless (same_status t.status assigned)
      (save now write_started (started_row now started_by t))

unfoldable pub complete_task : ℕ → ℕ → Task → Method
unfolding save
complete_task now completed_by t =
    refuse_unless (same_status t.status in_progress)
      (save now write_completed (completed_row now completed_by t))

unfoldable pub cancel_task : ℕ → ℕ → Task → Method
unfolding save
cancel_task now cancelled_by t =
    refuse_unless (not (same_status t.status completed))
      (save now write_cancelled (cancelled_row cancelled_by t))

-- TaskEscalationHistory is not imported.
unfoldable pub escalate_task : ℕ → ℕ → ℕ → Task → Method
unfolding save
escalate_task now escalated_to escalated_by t =
    then_name_error (save now write_escalated (escalated_row now escalated_to escalated_by t))
