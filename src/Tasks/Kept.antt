-- ===== src/Tasks/Kept.antt =====
-- Which identifiers the methods and functions on tasks leave in the table.
use clustr_be.Base.{
  ℕ, ◌≡◌, refl, sym, ◌∙◌, Bool, true, false, Option, none, some, List, [], ◌∷◌, arith, not, map,
  find_first, update_first, Bool-cases, Option-cases, inl, inr,
}
use clustr_be.Tasks.{
  Task, TaskStatus, pending, assigned, in_progress, completed, cancelled, overdue, is_assignable,
  Board, assigned_row, write_modifier, started_row, write_started, completed_row, write_completed,
  cancelled_row, write_cancelled, escalated_row, write_escalated, refuse_unless, Method, task_is,
  fails_clean, stamp, save, assign_to, start_task, complete_task, cancel_task, escalate_task,
  then_name_error, same_status,
}
use clustr_be.Tasks.Calls.{
  create, assign, start, complete, escalate, update_status, loaded, escalate_all, record_completion,
  perform_update, reassigned, reassign, or_due, is_accepted,
}

abbrev pub ids : Board → List ℕ
ids b = map (λ t. t.id) b.tasks

stamp_id : (now : ℕ) (old t : Task) → (stamp now old t).id ≡ t.id
unfolding stamp
stamp_id now old t = ground arith

update_ids :
    (j : ℕ) (f : Task → Task) (ts : List Task)
    → ((u : Task) → u.id ≡ j → (f u).id ≡ u.id)
    → map (λ t. t.id) (update_first (task_is j) f ts) ≡ map (λ t. t.id) ts
update_ids j f [] k = refl
update_ids j f (u ∷ ts) k = ground (arith, k u, update_ids j f ts k)

-- A method that neither adds nor removes a task.
abbrev pub KeepsIds : {A : Type 0} → (Board → A × Board) → Type 0
KeepsIds m = (b : Board) → ids (m b).1 ≡ ids b

-- A write of some fields to a row, which leaves its identifier.
abbrev IsWrite : (Task → Task → Task) → Type 0
IsWrite write = (old new : Task) → old.id ≡ new.id → (write old new).id ≡ old.id

save-KeepsIds :
    (now : ℕ) (write : Task → Task → Task) (u : Task) → IsWrite write → KeepsIds (save now write u)
unfolding save
save-KeepsIds now write u k b = elim (Option-cases (find_first (task_is u.id) b.tasks)) [
  | inl missing ↦ rw (missing, save) refl
  | inr (old, found) ↦
      let new = stamp now old u in
      elim (Bool-cases (fails_clean now new)) [
        | inl fails ↦ rw (found, save, fails) refl
        | inr passes ↦
            rw (found, save, passes)
              (update_ids u.id (λ row. write row new) b.tasks
                (λ row e. k row new (e ∙ sym (stamp_id now old u))))
      ]
]

then-KeepsIds : (m : Method) → KeepsIds m → KeepsIds (then_name_error m)
then-KeepsIds m k b = ground (arith, k b)

record-KeepsIds :
    (uploaded : Bool) (u : Task) (m : Method)
    → KeepsIds m
    → KeepsIds (record_completion uploaded u m)
record-KeepsIds uploaded u m k b = ground (arith, k b)

guarded-KeepsIds : (c : Bool) (m : Method) → KeepsIds m → KeepsIds (refuse_unless c m)
guarded-KeepsIds true m k b = k b
guarded-KeepsIds false m k b = refl

module _ (now : ℕ) (u : Task) where
  pub assign-KeepsIds : (user by : ℕ) → KeepsIds (assign now user by u)
  unfolding assign assign_to
  assign-KeepsIds user by =
      let row = assigned_row user by u in
      guarded-KeepsIds (is_assignable u.status) (then_name_error (save now write_modifier row)) (
        then-KeepsIds (save now write_modifier row)
          (save-KeepsIds now write_modifier row (λ old new e. refl)))

  pub start-KeepsIds : (by : ℕ) → KeepsIds (start now by u)
  unfolding start start_task
  start-KeepsIds by =
      let row = started_row now by u in
      guarded-KeepsIds (same_status u.status assigned) (save now write_started row)
        (save-KeepsIds now write_started row (λ old new e. refl))

  pub complete-KeepsIds : (by : ℕ) (uploaded : Bool) → KeepsIds (complete now by uploaded u)
  unfolding complete complete_task
  complete-KeepsIds by uploaded =
      let row = completed_row now by u in
      record-KeepsIds uploaded u (complete_task now by u) (
        guarded-KeepsIds (same_status u.status in_progress) (save now write_completed row)
          (save-KeepsIds now write_completed row (λ old new e. refl)))

  cancel-KeepsIds : (by : ℕ) → KeepsIds (cancel_task now by u)
  unfolding cancel_task
  cancel-KeepsIds by =
      let row = cancelled_row by u in
      guarded-KeepsIds (not (same_status u.status completed)) (save now write_cancelled row)
        (save-KeepsIds now write_cancelled row (λ old new e. refl))

  pub escalate-KeepsIds : (to by : ℕ) → KeepsIds (escalate now to by u)
  unfolding escalate escalate_task
  escalate-KeepsIds to by =
      let row = escalated_row now to by u in
      then-KeepsIds (save now write_escalated row)
        (save-KeepsIds now write_escalated row (λ old new e. refl))

  set-KeepsIds : (s : TaskStatus) → KeepsIds (save now (λ old new. new) (record u { status = s }))
  set-KeepsIds s = save-KeepsIds now (λ old new. new) (record u { status = s }) (λ old new e. sym e)

  pub update_status-KeepsIds : (user : ℕ) (s : TaskStatus) → KeepsIds (update_status now user s u)
  unfolding update_status
  update_status-KeepsIds user in_progress = start-KeepsIds user
  update_status-KeepsIds user completed = complete-KeepsIds user true
  update_status-KeepsIds user cancelled = cancel-KeepsIds user
  update_status-KeepsIds user pending = set-KeepsIds pending
  update_status-KeepsIds user assigned = set-KeepsIds assigned
  update_status-KeepsIds user overdue = set-KeepsIds overdue

  ids-reassign : (user : ℕ) (a : Option ℕ) (b : Board) → ids (reassign now user a u b) ≡ ids b
  ids-reassign user none b = refl
  ids-reassign user (some a) b = ground (arith, assign-KeepsIds a user b)

  pub perform_update-KeepsIds :
      (user : ℕ) (a : Option ℕ) (due : Option (Option ℕ))
      → KeepsIds (perform_update now user a due u)
  unfolding perform_update
  perform_update-KeepsIds user a due b =
      let row = record (reassigned user a u) {
        due_date = or_due u.due_date due;
        last_modified_by = some user;
      } in
      elim (Bool-cases (is_accepted now due)) [
        | inr n ↦ rw (n, perform_update) refl
        | inl y ↦
            rw (y, perform_update)
              (save-KeepsIds now (λ old new. new) row (λ old new e. sym e) (reassign now user a u b)
                ∙ ids-reassign user a b)
      ]

-- A call on a task that it loads.
pub loaded-KeepsIds :
    (j : ℕ) (f : Task → Board → Bool × Board)
    → ((u : Task) → KeepsIds (f u))
    → (b : Board) → ids (loaded j f b) ≡ ids b
loaded-KeepsIds j f k b = elim (Option-cases (find_first (task_is j) b.tasks)) [
  | inl missing ↦ rw (missing, loaded) refl
  | inr (u, found) ↦ rw (found, loaded) (k u b)
]

pub escalate_all-KeepsIds :
    (now : ℕ) (us : List Task) (b : Board) → ids (escalate_all now us b) ≡ ids b
escalate_all-KeepsIds now [] b = refl
escalate_all-KeepsIds now (u ∷ us) b =
    let f = λ (v : Task). escalate now v.created_by v.created_by v in
    escalate_all-KeepsIds now us (loaded u.id f b)
    ∙ loaded-KeepsIds u.id f (λ v. escalate-KeepsIds now v v.created_by v.created_by) b

pub create-KeepsIds :
    (now id by : ℕ) (assignee date : Option ℕ) → KeepsIds (create now id by assignee date)
unfolding create
create-KeepsIds now id by assignee date = save-KeepsIds now (λ old new. new) _ (λ old new e. sym e)
