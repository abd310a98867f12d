-- ===== src/Children/Counts.antt =====
-- How many logs a request has, and whether it is approved, after each write of a row.
use clustr_be.Base.{
  ℕ, ◌+◌, ◌≡◌, refl, Option, none, some, List, [], ◌∷◌, ◌++◌, arith, ◌==◌, if◌then◌else◌,
  find_first, update_first, map, is_at, Bool-cases, inl, inr,
}
use clustr_be.Children.{ExitRequest, EntryExitLog, is_approved}
use clustr_be.Children.Register.{request_is, log_is, expire_row}

-- The logs of a request.
abbrev pub count_logs : ℕ → List EntryExitLog → ℕ
count_logs i [] = 0
count_logs i (l ∷ ls) = if is_at l.exit_request i then 1 + count_logs i ls else count_logs i ls

abbrev pub approved_in : Option ExitRequest → ℕ
approved_in none = 0
approved_in (some q) = if is_approved q.status then 1 else 0

pub count_logs-append :
    (i : ℕ) (ls : List EntryExitLog) (l : EntryExitLog)
    → count_logs i (ls ++ l ∷ []) ≡ count_logs i ls + (if is_at l.exit_request i then 1 else 0)
count_logs-append i [] l = ground arith
count_logs-append i (k ∷ ls) l = ground (arith, count_logs-append i ls l)

pub count_logs-update :
    (i j : ℕ) (l : EntryExitLog) (l' : EntryExitLog) (ls : List EntryExitLog)
    → find_first (log_is j) ls ≡ some l
    → l'.id ≡ j
    → l'.exit_request ≡ l.exit_request
    → count_logs i (update_first (log_is l'.id) (λ _. l') ls) ≡ count_logs i ls
count_logs-update i j l l' [] h e x = refl
count_logs-update i j l l' (k ∷ ls) h e x = ground (arith, count_logs-update i j l l' ls)

pub count_logs-map :
    (i : ℕ) (f : EntryExitLog → EntryExitLog) (ls : List EntryExitLog)
    → ((l : EntryExitLog) → (f l).exit_request ≡ l.exit_request)
    → count_logs i (map f ls) ≡ count_logs i ls
count_logs-map i f [] h = refl
count_logs-map i f (l ∷ ls) h = rw (h l, count_logs-map i f ls h) refl

-- A pending row that is saved again.
pub approved-update :
    (i : ℕ) (q q' : ExitRequest) (qs : List ExitRequest)
    → find_first (request_is q.id) qs ≡ some q
    → q'.id ≡ q.id
    → approved_in (some q) ≡ 0
    → approved_in (find_first (request_is i) (update_first (request_is q'.id) (λ _. q') qs))
      ≡ approved_in (find_first (request_is i) qs)
        + (if i == q.id then approved_in (some q') else 0)
approved-update i q q' [] h e z = cc
approved-update i q q' (p ∷ qs) h e z = elim (Bool-cases (p.id == q'.id)) [
  | inl y ↦
      let same : p ≡ q = ground arith in
      rw y (elim (Bool-cases (q'.id == i)) [
        | inl at_i ↦ rw at_i (ground arith)
        | inr off ↦ rw off (ground arith)
      ])
  | inr n ↦ rw n (elim (Bool-cases (p.id == i)) [
    | inl at_i ↦ rw at_i (ground arith)
    | inr off ↦ rw off (ground (arith, approved-update i q q' qs))
  ])
]

pub approved-expire :
    (now i : ℕ) (qs : List ExitRequest)
    → approved_in (find_first (request_is i) (map (expire_row now) qs))
      ≡ approved_in (find_first (request_is i) qs)
approved-expire now i [] = refl
approved-expire now i (q ∷ qs) = ground (arith, approved-expire now i qs)

pub found_request :
    (i : ℕ) (q : ExitRequest) (qs : List ExitRequest)
    → find_first (request_is i) qs ≡ some q
    → q.id ≡ i
found_request i q [] h = cc
found_request i q (p ∷ qs) h = ground (arith, found_request i q qs)

pub found_log :
    (i : ℕ) (l : EntryExitLog) (ls : List EntryExitLog)
    → find_first (log_is i) ls ≡ some l
    → l.id ≡ i
found_log i l [] h = cc
found_log i l (k ∷ ls) h = ground (arith, found_log i l ls)
