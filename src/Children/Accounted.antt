-- ===== src/Children/Accounted.antt =====
-- Which logs an exit request has.
use Prim.Native.String.{String}
use clustr_be.Base.{
  ℕ, ◌+◌, ◌≡◌, Bool, true, false, is_at, ◌&&◌, some, List, [], ◌∷◌, if◌then◌else◌, find_first,
}
use clustr_be.Children.{ExitRequest, EntryExitLog, approved}
use clustr_be.Children.Register.{
  Register, Answer, request_is, accepted, add_log, create_log, Request, serve,
}
use clustr_be.Children.Counts.{count_logs, approved_in}

-- One log if the request is approved, and as many as `extra` says besides.
abbrev pub IsAccounted : (ℕ → ℕ) → Register → Type 0
IsAccounted extra r =
    (i : ℕ) → count_logs i r.logs ≡ approved_in (find_first (request_is i) r.requests) + extra i

approved_row : ℕ → ℕ → ExitRequest → ExitRequest
approved_row now user q = record q {
  status = approved;
  approved_by = some user;
  approved_at = some now;
}

-- A handler that loads a log, and keeps its request.
KeepsRequest : (EntryExitLog → EntryExitLog) → Type 0
KeepsRequest f = (l : EntryExitLog) → ((f l).id ≡ l.id) × ((f l).exit_request ≡ l.exit_request)

abbrev pub was_accepted : Answer → Bool
was_accepted accepted = true
was_accepted _ = false

-- The logs that a request to the handlers posts for an exit request.
unfoldable pub posted : Request → Register → ℕ → ℕ
unfolding add_log
posted (create_log now request type date back) r i =
    if was_accepted (add_log now request type date back r).0 && is_at request i then 1 else 0
posted _ r i = 0

unfoldable pub posted_all : List Request → Register → ℕ → ℕ
unfolding posted
posted_all [] r i = 0
posted_all (q ∷ qs) r i = posted q r i + posted_all qs (serve q r).1 i
