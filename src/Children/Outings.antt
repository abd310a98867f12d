-- ===== src/Children/Outings.antt =====
-- An outing as its guards see it, and that a log records it.
use clustr_be.Base.{ℕ, ◌-◌, ◌/◌, ◌%◌, ◌≤◌, ◌≡◌, refl, Option, some, List, [], ◌∷◌, arith}
use clustr_be.Children.{
  EntryExitLog, exit, scheduled, in_progress, completed, overdue, day, duration_minutes, mark_exit,
  mark_entry, mark_overdue, or_kept,
}

pub data Outing : Type 0 where
  planned : Outing
  away : ℕ → Outing
  home : ℕ → ℕ → Outing
  late : ℕ → Outing

-- What may happen to an outing.
pub data Step : Outing → Outing → Type 0 where
  depart : (t : ℕ) → Step planned (away t)
  return : (t u : ℕ) → t ≤ u → Step (away t) (home t u)
  lapse : (t : ℕ) → Step (away t) (late t)

pub data Reach (o : Outing) : Outing → Type 0 where
  here : Reach o o
  next : {o' o'' : Outing} → Reach o o' → Step o' o'' → Reach o o''

abbrev pub IsLater : ℕ → Outing → Type 0
IsLater now planned = Unit {0}
IsLater now (away t) = t ≤ now
IsLater now (home t u) = u ≤ now
IsLater now (late t) = t ≤ now

-- The log of an outing. The minutes of a return are those since the departure, without whole days.
abbrev pub Records : EntryExitLog → Outing → Type 0
Records l planned = (l.log_type ≡ exit) × (l.status ≡ scheduled)
Records l (away t) = (l.log_type ≡ exit) × (l.status ≡ in_progress) × (l.exit_time ≡ some (t % day))
Records l (home t u) =
    (l.log_type ≡ exit)
    × (l.status ≡ completed)
    × (l.exit_time ≡ some (t % day))
    × (l.entry_time ≡ some (u % day))
    × (l.actual_return_time ≡ some u)
    × (duration_minutes l ≡ some (((u - t) % day) / 60))
Records l (late t) = (l.log_type ≡ exit) × (l.status ≡ overdue) × (l.exit_time ≡ some (t % day))

-- A call at an instant, by a guard or nobody.
pub data Call : Type 0 where
  exit_call entry_call : ℕ → Option ℕ → Call
  overdue_call : ℕ → Call

abbrev pub time_of : Call → ℕ
time_of (exit_call now g) = now
time_of (entry_call now g) = now
time_of (overdue_call now) = now

unfoldable pub call : Call → EntryExitLog → EntryExitLog
unfolding mark_exit mark_entry mark_overdue
call (exit_call now g) l = (mark_exit now g l).1
call (entry_call now g) l = (mark_entry now g l).1
call (overdue_call now) l = (mark_overdue now l).1

unfoldable pub run : List Call → EntryExitLog → EntryExitLog
unfolding call
run [] l = l
run (c ∷ cs) l = run cs (call c l)

-- The calls come in order, none before `now`.
abbrev pub AreOrdered : ℕ → List Call → Type 0
AreOrdered now [] = Unit {0}
AreOrdered now (c ∷ cs) = (now ≤ time_of c) × AreOrdered (time_of c) cs

-- What a call does to an outing that the log records.
abbrev Follows : ℕ → Outing → EntryExitLog → Type 0
Follows now o l = (o' : Outing) × Reach o o' × Records l o' × IsLater now o'

-- The row that a return saves.
abbrev returned : ℕ → Option ℕ → EntryExitLog → EntryExitLog
returned now g l = record l {
  status = completed;
  entry_time = some (now % day);
  actual_return_time = some now;
  verified_by = or_kept g l.verified_by;
}

call_overdue : (c : Call) (l : EntryExitLog) → l.status ≡ overdue → call c l ≡ l
unfolding call mark_exit mark_entry mark_overdue
call_overdue (exit_call now g) l h = ground arith
call_overdue (entry_call now g) l h = ground arith
call_overdue (overdue_call now) l h = ground arith

-- An outing that was marked as overdue stays so whatever is called: the return is never recorded.
pub run_overdue : (cs : List Call) (l : EntryExitLog) → l.status ≡ overdue → run cs l ≡ l
unfolding run
run_overdue [] l h = refl
run_overdue (c ∷ cs) l h = rw (call_overdue c l h) (run_overdue cs l h)
