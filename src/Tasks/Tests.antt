-- ===== src/Tasks/Tests.antt =====
-- A board of tasks, and the theorem at it.
use clustr_be.Base.{◌≡◌, refl, true, none, some, List, [], ◌∷◌, find_first}
use mathlib.Core.Option
use clustr_be.Payments.Store.{err, does_not_exist}
use clustr_be.Tasks.{Task, Board, assigned, completed, task_is}
use clustr_be.Tasks.Calls.{create, get_overdue}
use clustr_be.Tasks.Kept.{ids}
use clustr_be.Tasks.Created.{
  Request, create_task, update_task, start_request, complete_request, escalate_request, set_status,
  deadlines, serve_all, ids-serve_all,
}

abbrev gate : Task
gate = record {
  id = 1;
  status = assigned;
  assigned_to = some 7;
  created_by = 5;
  due_date = some 100;
  started_at = none;
  completed_at = none;
  escalated_at = none;
  escalated_to = none;
  last_modified_by = none;
}

abbrev lawn : Task
lawn = record gate { id = 2; due_date = none }

abbrev estate : Board
estate = record { tasks = gate ∷ lawn ∷ []; status_history = [] }

abbrev requests : List Request
requests =
    start_request 100 7 1
    ∷ start_request 101 7 2
    ∷ complete_request 102 7 true 2
    ∷ escalate_request 103 5 5 1
    ∷ set_status 104 5 completed 1
    ∷ deadlines 105
    ∷ []

-- The task without a due date is done, the other is overdue as before.
lawn_done : (serve_all requests estate).status_history ≡ 2 ∷ []
unfolding serve_all
lawn_done = refl

gate_overdue : get_overdue 105 (serve_all requests estate) ≡ gate ∷ []
unfolding serve_all get_overdue
gate_overdue = refl

-- No task is ever created: the old row of a new task is looked up.
nothing_created : create 50 3 5 none none estate ≡ (err does_not_exist, estate)
unfolding create
nothing_created = refl

-- An update with a new due date, and a task that is not created.
abbrev more : List Request
more = update_task 106 5 none (some (some 200)) 1 ∷ create_task 107 3 5 none none ∷ requests

gate_moved :
    Option.map (λ t. t.due_date) (find_first (task_is 1) (serve_all more estate).tasks)
    ≡ some (some 200)
unfolding serve_all
gate_moved = refl

ids-serve_all_example : ids (serve_all more estate) ≡ 1 ∷ 2 ∷ []
ids-serve_all_example = ids-serve_all more estate
