-- ===== src/Tasks/Calls.antt =====
-- The functions of core/common/includes/tasks.py, `update_status` of management/views_task.py and the
-- job of core/common/tasks/task.py. Notices catch their exceptions and are left out.
use clustr_be.Base.{
  ℕ, Bool, true, false, ◌&&◌, ◌||◌, Option, none, some, List, [], ◌∷◌, if◌then◌else◌, ltb, is_some,
  find_first, keep, not, is_at,
}
use clustr_be.Payments.Store.{Result, ok, err, name_error}
use clustr_be.Tasks.{
  Task, TaskStatus, Board, Method, pending, assigned, in_progress, completed, cancelled, task_is,
  same_status, save, assign_to, start_task, complete_task, cancel_task, escalate_task,
  is_assignable, assigned_row,
}

abbrev pub is_ok : Result (Unit {0}) → Bool
is_ok (ok _) = true
is_ok (err _) = false

-- `try: ... return True`, `except Exception: return False`
abbrev pub attempted : Method → Board → Bool × Board
attempted m b = let (r, b') = m b in (is_ok r, b')

-- A new task has a fresh identifier, `id`, and `objects.create` saves it.
unfoldable pub create : ℕ → ℕ → ℕ → Option ℕ → Option ℕ → Method
unfolding save
create now id created_by assignee due =
    save now (λ old new. new)
      (record {
        id = id;
        status = if is_some assignee then assigned else pending;
        assigned_to = assignee;
        created_by = created_by;
        due_date = due;
        started_at = none;
        completed_at = none;
        escalated_at = none;
        escalated_to = none;
        last_modified_by = none;
      })

unfoldable pub assign : ℕ → ℕ → ℕ → Task → Board → Bool × Board
unfolding assign_to
assign now user assigned_by t = attempted (assign_to now user assigned_by t)

unfoldable pub start : ℕ → ℕ → Task → Board → Bool × Board
unfolding start_task
start now started_by t = attempted (start_task now started_by t)

-- The row of TaskStatusHistory after a completion. The upload of evidence, which may raise after
-- the task was saved, is an argument: whether all is uploaded.
abbrev pub record_completion : Bool → Task → Method → Method
record_completion uploaded t m b =
    let (r, b') = m b in
    elim r [
      | err e ↦ (err e, b')
      | ok _ ↦
          if uploaded
          then (ok tt, record b' { status_history = t.id ∷ b'.status_history })
          else (err name_error, b')
    ]

unfoldable pub complete : ℕ → ℕ → Bool → Task → Board → Bool × Board
unfolding complete_task
complete now completed_by uploaded t =
    attempted (record_completion uploaded t (complete_task now completed_by t))

unfoldable pub escalate : ℕ → ℕ → ℕ → Task → Board → Bool × Board
unfolding escalate_task
escalate now escalated_to escalated_by t = attempted (escalate_task now escalated_to escalated_by t)

-- The view `update_status`: whether it answers with success. What `start` and `complete` return is
-- not looked at.
unfoldable pub update_status : ℕ → ℕ → TaskStatus → Task → Board → Bool × Board
unfolding start complete cancel_task save
update_status now user in_progress t b = (true, (start now user t b).1)
update_status now user completed t b = (true, (complete now user true t b).1)
update_status now user cancelled t b = attempted (cancel_task now user t) b
update_status now user s t b = attempted (save now (λ old new. new) (record t { status = s })) b

-- `perform_update`: the new due date has to be in the future.
abbrev pub is_accepted : ℕ → Option (Option ℕ) → Bool
is_accepted now (some (some due)) = ltb now due
is_accepted now _ = true

-- The object after `tasks.assign`, which sets its fields before it raises, and the table.
abbrev pub reassigned : ℕ → Option ℕ → Task → Task
reassigned user none t = t
reassigned user (some a) t =
    if not (is_at t.assigned_to a) && is_assignable t.status then assigned_row a user t else t

abbrev pub reassign : ℕ → ℕ → Option ℕ → Task → Board → Board
reassign now user none t b = b
reassign now user (some a) t b = if is_at t.assigned_to a then b else (assign now a user t b).1

abbrev pub or_due : Option ℕ → Option (Option ℕ) → Option ℕ
or_due due none = due
or_due _ (some due) = due

unfoldable pub perform_update : ℕ → ℕ → Option ℕ → Option (Option ℕ) → Task → Board → Bool × Board
unfolding save assign
perform_update now user assignee due t b =
    let row = record (reassigned user assignee t) {
      due_date = or_due t.due_date due;
      last_modified_by = some user;
    } in
    if is_accepted now due
    then attempted (save now (λ old new. new) row) (reassign now user assignee t b)
    else (false, b)

abbrev pub is_open : TaskStatus → Bool
is_open s = same_status s pending || (same_status s assigned || same_status s in_progress)

abbrev pub is_before : Option ℕ → ℕ → Bool
is_before none now = false
is_before (some due) now = ltb due now

-- `get_overdue`, without its order
unfoldable pub get_overdue : ℕ → Board → List Task
get_overdue now b = keep (λ t. is_before t.due_date now && is_open t.status) b.tasks

-- A call on the task that is found under an identifier.
abbrev pub loaded : ℕ → (Task → Board → Bool × Board) → Board → Board
loaded i f b = elim (find_first (task_is i) b.tasks) [ none ↦ b | some t ↦ (f t b).1 ]

abbrev pub escalate_all : ℕ → List Task → Board → Board
escalate_all now [] b = b
escalate_all now (t ∷ ts) b =
    escalate_all now ts (loaded t.id (λ u. escalate now u.created_by u.created_by u) b)

-- The escalations of `check_task_deadlines_for_cluster`.
unfoldable pub check_task_deadlines : ℕ → Board → Board
unfolding get_overdue escalate
check_task_deadlines now b = escalate_all now (get_overdue now b) b
