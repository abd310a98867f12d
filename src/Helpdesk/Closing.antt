-- ===== src/Helpdesk/Closing.antt =====
-- The stamps of a ticket, and which tickets the job closes.
use clustr_be.Base.{
  ℕ, ◌+◌, ◌*◌, ◌≤◌, ◌≡◌, refl, Bool, true, false, none, List, [], ◌∷◌, arith, is_some, any, keep,
  length, map, if◌then◌else◌, Bool-cases, inl, inr, ◌==◌, update_first,
}
use clustr_be.Helpdesk.{
  IssueTicket, IssueStatus, resolved, opened, is_resolved, is_closed, is_closable, set_status,
  close_resolved, auto_close_resolved_issues,
}

-- The table after the job.
abbrev after : ℕ → ℕ → List IssueTicket → List IssueTicket
after now days = map (λ t. if is_closable now days t then close_resolved now t else t)

none_left :
    (now days : ℕ) (tickets : List IssueTicket)
    → any (is_closable now days) (after now days tickets) ≡ false
unfolding close_resolved
none_left now days [] = refl
none_left now days (t ∷ tickets) = ground (arith, none_left now days tickets)

closed_more :
    (now days : ℕ) (tickets : List IssueTicket)
    → length (keep (λ t. is_closed t.status) (after now days tickets))
      ≡ length (keep (λ t. is_closed t.status) tickets)
        + length (keep (is_closable now days) tickets)
unfolding close_resolved
closed_more now days [] = refl
closed_more now days (t ∷ tickets) = ground (arith, closed_more now days tickets)

nothing_closable :
    (now days : ℕ) (tickets : List IssueTicket)
    → any (is_closable now days) tickets ≡ false
    → (length (keep (is_closable now days) tickets) ≡ 0) × (after now days tickets ≡ tickets)
nothing_closable now days [] h = (refl, refl)
nothing_closable now days (t ∷ tickets) h = ground (arith, nothing_closable now days tickets)

-- The job leaves no ticket that it would close, raises the number of closed tickets by the number
-- that it returns, and run again at the same time closes none and changes nothing.
pub auto_close_resolved_issues_twice :
    (now days : ℕ) (tickets : List IssueTicket)
    → let (count, later) = auto_close_resolved_issues now days tickets in
      (any (is_closable now days) later ≡ false)
      × (length (keep (λ t. is_closed t.status) later)
          ≡ length (keep (λ t. is_closed t.status) tickets) + count)
      × (auto_close_resolved_issues now days later ≡ (0, later))
unfolding auto_close_resolved_issues
auto_close_resolved_issues_twice now days tickets =
    let rest = none_left now days tickets in
    let (n, same) = nothing_closable now days (after now days tickets) rest in
    (rest, closed_more now days tickets, rw (n, same) refl)

-- A ticket that is resolved or closed says since when.
abbrev pub IsStamped : IssueTicket → Type 0
IsStamped t =
    (is_resolved t.status ≡ true → is_some t.resolved_at ≡ true)
    × (is_closed t.status ≡ true → is_some t.closed_at ≡ true)

abbrev pub AreStamped : List IssueTicket → Type 0
AreStamped [] = Unit
AreStamped (t ∷ tickets) = IsStamped t × AreStamped tickets

set_status-IsStamped :
    (now : ℕ) (status : IssueStatus) (t : IssueTicket)
    → IsStamped t
    → IsStamped (set_status now status t)
unfolding set_status
set_status-IsStamped now status t h = ground arith

close_resolved-IsStamped :
    (now : ℕ) (t : IssueTicket) → IsStamped t → IsStamped (close_resolved now t)
unfolding close_resolved
close_resolved-IsStamped now t h = ground arith

pub data Event : Type 0 where
  change : ℕ → IssueStatus → Event
  run_job : ℕ → Event

abbrev pub ticket_is : ℕ → IssueTicket → Bool
ticket_is i t = t.id == i

-- An update of a ticket, or a run of the job with its number of days.
unfoldable pub serve : ℕ → Event → List IssueTicket → List IssueTicket
unfolding set_status auto_close_resolved_issues
serve now (change i status) tickets = update_first (ticket_is i) (set_status now status) tickets
serve now (run_job days) tickets = (auto_close_resolved_issues now days tickets).1

unfoldable pub serve_all : List (ℕ × Event) → List IssueTicket → List IssueTicket
serve_all [] tickets = tickets
serve_all ((now, e) ∷ es) tickets = serve_all es (serve now e tickets)

change-AreStamped :
    (now i : ℕ) (status : IssueStatus) (tickets : List IssueTicket)
    → AreStamped tickets
    → AreStamped (update_first (ticket_is i) (set_status now status) tickets)
change-AreStamped now i status [] h = tt
change-AreStamped now i status (t ∷ tickets) h = elim (Bool-cases (ticket_is i t)) [
  | inl e ↦ rw e (set_status-IsStamped now status t h.0, h.1)
  | inr e ↦ rw e (h.0, change-AreStamped now i status tickets h.1)
]

job-AreStamped :
    (now days : ℕ) (tickets : List IssueTicket)
    → AreStamped tickets
    → AreStamped (after now days tickets)
job-AreStamped now days [] h = tt
job-AreStamped now days (t ∷ tickets) h = elim (Bool-cases (is_closable now days t)) [
  | inl e ↦ rw e (close_resolved-IsStamped now t h.0, job-AreStamped now days tickets h.1)
  | inr e ↦ rw e (h.0, job-AreStamped now days tickets h.1)
]

-- From tickets of which each that is resolved or closed says since when, every sequence of
-- updates of their statuses and runs of the job, at any times, leads to such tickets.
pub serve_all-AreStamped :
    (es : List (ℕ × Event)) (tickets : List IssueTicket)
    → AreStamped tickets
    → AreStamped (serve_all es tickets)
unfolding serve_all serve
serve_all-AreStamped [] tickets h = h
serve_all-AreStamped ((now, change i status) ∷ es) tickets h =
    serve_all-AreStamped es _ (change-AreStamped now i status tickets h)
serve_all-AreStamped ((now, run_job days) ∷ es) tickets h =
    serve_all-AreStamped es _ (job-AreStamped now days tickets h)

-- A ticket that was resolved long ago, then opened and resolved again, is one that the job
-- closes at once: the first stamp stays.
pub resolved_again :
    (first reopen again days : ℕ) (t : IssueTicket)
    → t.resolved_at ≡ none
    → is_resolved t.status ≡ false
    → first + 86400 * days ≤ again
    → is_closable again days
        (set_status again resolved (set_status reopen opened (set_status first resolved t)))
      ≡ true
unfolding set_status
resolved_again first reopen again days t h n le = ground arith
