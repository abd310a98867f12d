-- ===== src/Children/Register.antt =====
-- The tables of requests and logs, and the handlers on them: ManagementExitRequestViewSet and
-- ManagementEntryExitLogViewSet of management/views_child.py, MemberExitRequestViewSet of
-- members/views_child.py, and the jobs of core/common/tasks. A notice, whose failure is caught, is
-- left out. A new row stands last.
use Prim.Native.String.{String}
use clustr_be.Base.{
  ℕ, ◌+◌, ◌/◌, Bool, ◌&&◌, Option, none, some, List, [], ◌∷◌, ◌++◌, ◌==◌, if◌then◌else◌, find_first,
  update_first, map, any, true, false, not, ltb, leb, ◌||◌,
}
use clustr_be.Children.{
  ExitRequest, EntryExitLog, LogType, expired, denied, exit, scheduled, day, is_pending, is_expired,
  approve, deny, is_exit, is_in_progress, is_past, mark_exit, mark_entry, mark_overdue,
}

pub record Register : Type 0 where
  pub requests : List ExitRequest
  pub logs : List EntryExitLog
  pub next_id : ℕ

-- The status of the response, and the `NameError` of a save.
pub data Answer : Type 0 where
  accepted bad_request not_found name_error : Answer

abbrev pub request_is : ℕ → ExitRequest → Bool
request_is i q = q.id == i

abbrev pub log_is : ℕ → EntryExitLog → Bool
log_is i l = l.id == i

-- `save` of a new request. No create serializer has the field request_id, and the model generates a
-- missing one with CodeGenerator, which its file does not import.
unfoldable pub add_request : ℕ → ℕ → Register → Answer × Register
add_request back expires r = (name_error, r)

-- The foreign key of a posted log.
abbrev pub is_known : Option ℕ → List ExitRequest → Bool
is_known none qs = true
is_known (some i) qs = any (request_is i) qs

abbrev pub is_before : Option ℕ → ℕ → Bool
is_before none now = false
is_before (some back) now = leb back now

-- The row of a posted log.
abbrev pub posted_log : ℕ → Option ℕ → LogType → ℕ → Option ℕ → EntryExitLog
posted_log id request type date back = record {
  id = id;
  exit_request = request;
  log_type = type;
  status = scheduled;
  date = date;
  exit_time = none;
  entry_time = none;
  expected_return_time = back;
  actual_return_time = none;
  verified_by = none;
}

-- `create` of ManagementEntryExitLogViewSet: a log for any request, or for none.
unfoldable pub add_log : ℕ → Option ℕ → LogType → ℕ → Option ℕ → Register → Answer × Register
add_log now request type date back r =
    if not (is_known request r.requests)
      || (ltb (now / day) date || (is_exit type && is_before back now))
    then (bad_request, r)
    else (
      accepted,
      record r {
        logs = r.logs ++ posted_log r.next_id request type date back ∷ [];
        next_id = r.next_id + 1;
      },
    )

abbrev pub save_request : ExitRequest → Register → Register
save_request q r = record r { requests = update_first (request_is q.id) (λ _. q) r.requests }

abbrev pub save_log : EntryExitLog → Register → Register
save_log l r = record r { logs = update_first (log_is l.id) (λ _. l) r.logs }

-- The log of an approved request.
abbrev pub new_log : ℕ → ℕ → ExitRequest → EntryExitLog
new_log id now q = record {
  id = id;
  exit_request = some q.id;
  log_type = exit;
  status = scheduled;
  date = now / day;
  exit_time = none;
  entry_time = none;
  expected_return_time = some q.expected_return_time;
  actual_return_time = none;
  verified_by = none;
}

-- `approve_deny` with the action "approve", on a loaded request.
unfoldable pub approve_row : ℕ → ℕ → ExitRequest → Register → Answer × Register
unfolding approve
approve_row now user q r =
    let (success, q') = approve now user q in
    if success
    then (
      accepted,
      record (save_request q' r) {
        logs = r.logs ++ new_log r.next_id now q' ∷ [];
        next_id = r.next_id + 1;
      },
    )
    else (bad_request, r)

-- With the action "deny", whose reason the serializer requires.
unfoldable pub deny_row : ℕ → ℕ → String → ExitRequest → Register → Answer × Register
unfolding deny
deny_row now user reason q r =
    let (success, q') = deny now user reason q in
    if success then (accepted, save_request q' r) else (bad_request, r)

-- `cancel` of the member's view.
unfoldable pub cancel_row : ℕ → ℕ → ExitRequest → Register → Answer × Register
cancel_row now user q r =
    if is_pending q.status
    then (
      accepted,
      save_request
          (record q {
            status = denied;
            denied_by = some user;
            denied_at = some now;
            denial_reason = "Cancelled by parent";
          })
          r,
    )
    else (bad_request, r)

-- `get_object`
abbrev pub with_request :
    ℕ → (ExitRequest → Register → Answer × Register) → Register → Answer × Register
with_request i f r = elim (find_first (request_is i) r.requests) [
  | none ↦ (not_found, r)
  | some q ↦ f q r
]

abbrev pub with_log : ℕ → (EntryExitLog → Bool × EntryExitLog) → Register → Answer × Register
with_log i f r = elim (find_first (log_is i) r.logs) [
  | none ↦ (not_found, r)
  | some l ↦
      let (success, l') = f l in if success then (accepted, save_log l' r) else (bad_request, r)
]

-- The update of `expire_old_exit_requests`.
abbrev pub expire_row : ℕ → ExitRequest → ExitRequest
expire_row now q =
    if is_pending q.status && is_expired now q then record q { status = expired } else q

unfoldable pub expire_old_exit_requests : ℕ → Register → Register
expire_old_exit_requests now r = record r { requests = map (expire_row now) r.requests }

-- The loop of `check_overdue_children`, which the handler `check_overdue` repeats.
abbrev pub check_row : ℕ → EntryExitLog → EntryExitLog
check_row now l =
    if is_exit l.log_type && (is_in_progress l.status && is_past now l.expected_return_time)
    then (mark_overdue now l).1
    else l

unfoldable pub check_overdue_children : ℕ → Register → Register
unfolding mark_overdue
check_overdue_children now r = record r { logs = map (check_row now) r.logs }

-- The update and the removal of single rows, which are generic, are left out.
pub data Request : Type 0 where
  create_request : ℕ → ℕ → Request
  create_log : ℕ → Option ℕ → LogType → ℕ → Option ℕ → Request
  approve_request cancel_request : ℕ → ℕ → ℕ → Request
  deny_request : ℕ → ℕ → String → ℕ → Request
  log_exit log_entry : ℕ → Option ℕ → ℕ → Request
  log_overdue : ℕ → ℕ → Request
  expire_requests check_overdue : ℕ → Request

unfoldable pub serve : Request → Register → Answer × Register
unfolding add_request add_log approve_row deny_row cancel_row expire_old_exit_requests
    check_overdue_children mark_exit mark_entry mark_overdue
serve (create_request back expires) r = add_request back expires r
serve (create_log now request type date back) r = add_log now request type date back r
serve (approve_request now user i) r = with_request i (approve_row now user) r
serve (cancel_request now user i) r = with_request i (cancel_row now user) r
serve (deny_request now user reason i) r = with_request i (deny_row now user reason) r
serve (log_exit now guard i) r = with_log i (mark_exit now guard) r
serve (log_entry now guard i) r = with_log i (mark_entry now guard) r
serve (log_overdue now i) r = with_log i (mark_overdue now) r
serve (expire_requests now) r = (accepted, expire_old_exit_requests now r)
serve (check_overdue now) r = (accepted, check_overdue_children now r)

unfoldable pub serve_all : List Request → Register → Register
unfolding serve
serve_all [] r = r
serve_all (q ∷ qs) r = serve_all qs (serve q r).1
