-- ===== src/Tasks/Created.antt =====
-- The requests about tasks, and that none of them creates a task.
use clustr_be.Base.{ℕ, ◌≡◌, refl, ◌∙◌, Bool, Option, List, [], ◌∷◌}
use clustr_be.Tasks.{TaskStatus, Board}
use clustr_be.Tasks.Calls.{
  create, assign, start, complete, escalate, update_status, perform_update, check_task_deadlines,
  loaded, get_overdue,
}
use clustr_be.Tasks.Kept.{
  ids, create-KeepsIds, assign-KeepsIds, start-KeepsIds, complete-KeepsIds, escalate-KeepsIds,
  update_status-KeepsIds, perform_update-KeepsIds, loaded-KeepsIds, escalate_all-KeepsIds,
}

-- The calls, each on a task that is loaded by its identifier. The removal of a row, a DELETE, is not
-- among them.
pub data Request : Type 0 where
  create_task : ℕ → ℕ → ℕ → Option ℕ → Option ℕ → Request
  update_task : ℕ → ℕ → Option ℕ → Option (Option ℕ) → ℕ → Request
  assign_task : ℕ → ℕ → ℕ → ℕ → Request
  start_request : ℕ → ℕ → ℕ → Request
  complete_request : ℕ → ℕ → Bool → ℕ → Request
  escalate_request : ℕ → ℕ → ℕ → ℕ → Request
  set_status : ℕ → ℕ → TaskStatus → ℕ → Request
  deadlines : ℕ → Request

unfoldable pub serve : Request → Board → Board
unfolding create assign start complete escalate update_status perform_update check_task_deadlines
serve (create_task now id c a d) b = (create now id c a d b).1
serve (update_task now u a d i) b = loaded i (perform_update now u a d) b
serve (assign_task now u a i) b = loaded i (assign now u a) b
serve (start_request now u i) b = loaded i (start now u) b
serve (complete_request now u e i) b = loaded i (complete now u e) b
serve (escalate_request now u a i) b = loaded i (escalate now u a) b
serve (set_status now u s i) b = loaded i (update_status now u s) b
serve (deadlines now) b = check_task_deadlines now b

unfoldable pub serve_all : List Request → Board → Board
unfolding serve
serve_all [] b = b
serve_all (r ∷ rs) b = serve_all rs (serve r b)

ids-serve : (r : Request) (b : Board) → ids (serve r b) ≡ ids b
unfolding serve check_task_deadlines
ids-serve (create_task now id c a d) b = create-KeepsIds now id c a d b
ids-serve (update_task now u a d j) b =
    loaded-KeepsIds j (perform_update now u a d) (λ v. perform_update-KeepsIds now v u a d) b
ids-serve (assign_task now u a j) b =
    loaded-KeepsIds j (assign now u a) (λ v. assign-KeepsIds now v u a) b
ids-serve (start_request now u j) b =
    loaded-KeepsIds j (start now u) (λ v. start-KeepsIds now v u) b
ids-serve (complete_request now u e j) b =
    loaded-KeepsIds j (complete now u e) (λ v. complete-KeepsIds now v u e) b
ids-serve (escalate_request now u a j) b =
    loaded-KeepsIds j (escalate now u a) (λ v. escalate-KeepsIds now v u a) b
ids-serve (set_status now u s j) b =
    loaded-KeepsIds j (update_status now u s) (λ v. update_status-KeepsIds now v u s) b
ids-serve (deadlines now) b = escalate_all-KeepsIds now (get_overdue now b) b

-- Whatever is called in whatever order (the creation of tasks, their update, assignment, start,
-- completion and escalation, the change of a status, and the job of the deadlines), the
-- identifiers in the table of tasks stay what they were: no call ever creates a task.
pub ids-serve_all : (rs : List Request) (b : Board) → ids (serve_all rs b) ≡ ids b
unfolding serve_all
ids-serve_all [] b = refl
ids-serve_all (r ∷ rs) b = ids-serve_all rs (serve r b) ∙ ids-serve r b
