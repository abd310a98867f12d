-- ===== src/Helpdesk/Tests.antt =====
-- Tickets, runs of the code on them, and the theorems at them.
use clustr_be.Base.{
  ℕ, ◌+◌, ◌≡◌, refl, false, none, some, List, [], ◌∷◌, arith, any, keep, length, map,
}
use clustr_be.Payments.Store.{err, attribute_error}
use clustr_be.Helpdesk.{
  IssueTicket, submitted, opened, resolved, closed, is_closed, is_closable,
  auto_close_resolved_issues, escalate_overdue_issues,
}
use clustr_be.Helpdesk.Closing.{
  auto_close_resolved_issues_twice, AreStamped, Event, change, run_job,
}

abbrev leak : IssueTicket
leak = record {
  id = 1;
  created_at = 1000;
  status = submitted;
  assigned_to = none;
  resolved_at = none;
  closed_at = none;
  escalated_at = none;
}

abbrev door : IssueTicket
door = record leak { id = 2; status = resolved; resolved_at = some 2000 }

abbrev gate : IssueTicket
gate = record leak { id = 3; status = opened }

abbrev week : ℕ
week = 606800

closes_door :
    map
      (λ (t : IssueTicket). t.status)
      (auto_close_resolved_issues week 7 (leak ∷ door ∷ gate ∷ [])).1
    ≡ submitted ∷ closed ∷ opened ∷ []
unfolding auto_close_resolved_issues
closes_door = refl

gate_overdue : escalate_overdue_issues week 3 (gate ∷ []) ≡ err attribute_error
unfolding escalate_overdue_issues
gate_overdue = refl

auto_close_resolved_issues_twice_example :
    let (count, later) = auto_close_resolved_issues week 7 (leak ∷ door ∷ gate ∷ []) in
    (any (is_closable week 7) later ≡ false)
    × (length (keep (λ t. is_closed t.status) later)
        ≡ length (keep (λ t. is_closed t.status) (leak ∷ door ∷ gate ∷ [])) + count)
    × (auto_close_resolved_issues week 7 later ≡ (0, later))
auto_close_resolved_issues_twice_example =
    auto_close_resolved_issues_twice week 7 (leak ∷ door ∷ gate ∷ [])

abbrev events : List (ℕ × Event)
events = (100, change 1 resolved) ∷ (week, run_job 7) ∷ (week, change 3 closed) ∷ []

new-AreStamped : AreStamped (leak ∷ door ∷ gate ∷ [])
new-AreStamped = ground arith
