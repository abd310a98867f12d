-- ===== src/Helpdesk.antt =====
-- core/common/models/helpdesk/issue.py, the functions of core/common/includes/helpdesk.py that
-- change tickets, and the actions of management/views_helpdesk.py on one. Instants are seconds.
pub mod Closing
mod Tests
use clustr_be.Base.{
  ℕ, ◌+◌, ◌*◌, Bool, true, false, ◌&&◌, ◌==◌, Option, none, some, List, [], ◌∷◌, leb, not,
  if◌then◌else◌, is_some, any, keep, length, map,
}
use clustr_be.Payments.Store.{Result, ok, err, attribute_error, name_error, type_error}

pub data IssueStatus : Type 0 where
  submitted opened in_progress on_hold resolved closed : IssueStatus

pub record IssueTicket : Type 0 where
  pub id : ℕ
  pub created_at : ℕ
  pub status : IssueStatus
  pub assigned_to : Option ℕ
  pub resolved_at : Option ℕ
  pub closed_at : Option ℕ
  pub escalated_at : Option ℕ

abbrev pub is_resolved : IssueStatus → Bool
is_resolved resolved = true
is_resolved _ = false

abbrev pub is_closed : IssueStatus → Bool
is_closed closed = true
is_closed _ = false

-- `status in [OPEN, IN_PROGRESS]`
abbrev pub is_in_work : IssueStatus → Bool
is_in_work opened = true
is_in_work in_progress = true
is_in_work _ = false

-- `IssueTicket.save`, for a row whose stored status is `old`. A stamp is set by a change of the
-- status, once.
unfoldable pub save : ℕ → IssueStatus → IssueTicket → IssueTicket
save now old t =
    if is_resolved t.status && (not (is_resolved old) && not (is_some t.resolved_at))
    then record t { resolved_at = some now }
    else if is_closed t.status && (not (is_closed old) && not (is_some t.closed_at))
    then record t { closed_at = some now }
    else t

-- The update of a ticket by its serializer: any status is written.
unfoldable pub set_status : ℕ → IssueStatus → IssueTicket → IssueTicket
unfolding save
set_status now status t = save now t.status (record t { status = status })

-- `resolved_at__lte=now - timedelta(days=…)`, which a column that is null does not pass.
abbrev pub is_before : ℕ → ℕ → Option ℕ → Bool
is_before now days none = false
is_before now days (some a) = leb (a + 86400 * days) now

abbrev pub is_closable : ℕ → ℕ → IssueTicket → Bool
is_closable now days t = is_resolved t.status && is_before now days t.resolved_at

-- One ticket of the loop of `auto_close_resolved_issues`.
unfoldable pub close_resolved : ℕ → IssueTicket → IssueTicket
unfolding save
close_resolved now t = save now t.status (record t { status = closed; closed_at = some now })

-- The number of tickets that were closed, and the table.
unfoldable pub auto_close_resolved_issues : ℕ → ℕ → List IssueTicket → ℕ × List IssueTicket
unfolding close_resolved
auto_close_resolved_issues now days tickets = (
  length (keep (is_closable now days) tickets),
  map (λ t. if is_closable now days t then close_resolved now t else t) tickets,
)

abbrev pub is_overdue : ℕ → ℕ → IssueTicket → Bool
is_overdue now days t =
    is_in_work t.status && (leb (t.created_at + 86400 * days) now && not (is_some t.escalated_at))

-- `escalate_overdue_issues`: the loop over the overdue tickets reads `IssueStatus.ESCALATED`, which
-- is none of the choices.
unfoldable pub escalate_overdue_issues : ℕ → ℕ → List IssueTicket → Result ℕ
escalate_overdue_issues now days tickets =
    if any (is_overdue now days) tickets then err attribute_error else ok 0

-- `get_issue_metrics` reads it always.
abbrev pub get_issue_metrics : List IssueTicket → Result ℕ
get_issue_metrics tickets = err attribute_error

-- `IssueTicket.assign` reads `issue`, which is no name there; without someone to assign to it reads
-- `Response`, which is none either. The view calls `escalte`, which no ticket has.
abbrev pub assign : Option ℕ → IssueTicket → Result IssueTicket
assign assign_to t = err name_error

abbrev pub escalate : IssueTicket → Result IssueTicket
escalate t = err attribute_error

-- The view `create_maintenance`: `create_log` sets a status itself and is given another, which
-- raises; the exception is answered as an error, and the ticket stays.
abbrev pub create_maintenance : IssueTicket → Result (Unit {0}) × IssueTicket
create_maintenance t = (err type_error, t)
