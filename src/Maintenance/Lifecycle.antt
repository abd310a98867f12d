-- ===== src/Maintenance/Lifecycle.antt =====
-- What the calls of the methods of a maintenance log, in any sequence, can make of it.
use clustr_be.Base.{
  ℕ, ◌+◌, ◌≤◌, ◌≡◌, ◌⊎◌, refl, inl, inr, Bool, true, false, Option, none, some, List, [], ◌∷◌,
  arith, is_some, Bool-cases,
}
use clustr_be.Base.Int.{ℤ, pos, ◌-ℤ◌}
use clustr_be.Payments.Store.{Result, ok, err}
use clustr_be.Maintenance.{
  is_in_progress, is_completed, MaintenanceLog, Status, scheduled, in_progress, completed, save,
  stamp, start_maintenance, complete_maintenance, cancel_maintenance, postpone_maintenance,
  update_status, assign_log,
}

pub data Call : Type 0 where
  start complete cancel : Option ℕ → Call
  postpone : ℕ → Option ℕ → Call
  assign : ℕ → ℕ → Call

-- What is stored after a call: a call that raises stores nothing.
abbrev pub stored : MaintenanceLog → Result MaintenanceLog → MaintenanceLog
stored m (ok m') = m'
stored m (err _) = m

unfoldable pub serve : ℕ → Call → MaintenanceLog → MaintenanceLog
unfolding start_maintenance complete_maintenance cancel_maintenance postpone_maintenance assign_log
serve now (start u) m = stored m (start_maintenance now u m)
serve now (complete u) m = stored m (complete_maintenance now u m)
serve now (cancel u) m = stored m (cancel_maintenance now u m)
serve now (postpone d u) m = stored m (postpone_maintenance now d u m)
serve now (assign a u) m = assign_log now a u m

-- The calls come one after the other, each so long after the one before.
unfoldable pub serve_all : ℕ → List (ℕ × Call) → MaintenanceLog → MaintenanceLog
serve_all now [] m = m
serve_all now ((wait, c) ∷ cs) m = serve_all (now + wait) cs (serve (now + wait) c m)

-- From `s`, not later than `c`, which is not later than `now`.
abbrev pub IsTimed : ℕ → Option ℕ → Option ℕ → Option ℤ → Type 0
IsTimed now none c d = Unit
IsTimed now (some s) none d = s ≤ now
IsTimed now (some s) (some c) d = (s ≤ c) × (c ≤ now) × (d ≡ some (pos c -ℤ pos s))

-- The columns tell what was done: work that is under way or completed has a start, a log has an
-- end exactly if it is completed, and a log that has both has them in order, not in the
-- future, with the duration between them.
pub record IsRecorded (now : ℕ) (m : MaintenanceLog) : Type 0 where
  pub ended : is_some m.completed_at ≡ is_completed m.status
  pub under_way : is_in_progress m.status ≡ true → is_some m.started_at ≡ true
  pub done : is_completed m.status ≡ true → is_some m.started_at ≡ true
  pub timed : IsTimed now m.started_at m.completed_at m.actual_duration

serve-IsRecorded :
    (now wait : ℕ) (c : Call) (m : MaintenanceLog)
    → IsRecorded now m
    → IsRecorded (now + wait) (serve (now + wait) c m)
unfolding serve save stamp
serve-IsRecorded now wait (start u) m h = ground arith
serve-IsRecorded now wait (complete u) m h = ground arith
serve-IsRecorded now wait (cancel u) m h = ground arith
serve-IsRecorded now wait (postpone d u) m h = ground arith
serve-IsRecorded now wait (assign a u) m h = ground arith

-- The time of the last call.
abbrev pub time_after : ℕ → List (ℕ × Call) → ℕ
time_after now [] = now
time_after now ((wait, c) ∷ cs) = time_after (now + wait) cs

-- What a completed log keeps.
abbrev pub IsFinal : MaintenanceLog → MaintenanceLog → Type 0
IsFinal m m' =
    (m'.status ≡ m.status)
    × (m'.started_at ≡ m.started_at)
    × (m'.completed_at ≡ m.completed_at)
    × (m'.actual_duration ≡ m.actual_duration)

serve-IsFinal :
    (now : ℕ) (c : Call) (m : MaintenanceLog) {t : ℕ}
    → IsRecorded t m
    → is_completed m.status ≡ true
    → IsFinal m (serve now c m)
unfolding serve save stamp
serve-IsFinal now (start u) m h e = ground arith
serve-IsFinal now (complete u) m h e = ground arith
serve-IsFinal now (cancel u) m h e = ground arith
serve-IsFinal now (postpone d u) m h e = ground arith
serve-IsFinal now (assign a u) m h e = ground arith

IsFinal-trans : (a b c : MaintenanceLog) → IsFinal a b → IsFinal b c → IsFinal a c
IsFinal-trans a b c h k = ground arith

serve_all-IsFinal :
    (now : ℕ) (cs : List (ℕ × Call)) (m : MaintenanceLog)
    → IsRecorded now m
    → is_completed m.status ≡ true
    → IsFinal m (serve_all now cs m)
unfolding serve_all
serve_all-IsFinal now [] m h e = (refl, refl, refl, refl)
serve_all-IsFinal now ((wait, c) ∷ cs) m h e =
    let m' = serve (now + wait) c m in
    let k = serve-IsFinal (now + wait) c m h e in
    IsFinal-trans m m' (serve_all (now + wait) cs m') k
      (serve_all-IsFinal (now + wait) cs m' (serve-IsRecorded now wait c m h) (rw (k.0) e))

serve_all-IsRecorded_keeps :
    (now : ℕ) (cs : List (ℕ × Call)) (m : MaintenanceLog)
    → IsRecorded now m
    → IsRecorded (time_after now cs) (serve_all now cs m)
unfolding serve_all
serve_all-IsRecorded_keeps now [] m h = h
serve_all-IsRecorded_keeps now ((wait, c) ∷ cs) m h =
    serve_all-IsRecorded_keeps (now + wait) cs (serve (now + wait) c m)
      (serve-IsRecorded now wait c m h)

-- From a log whose columns tell what was done, every sequence of calls of the methods and of
-- assignments, each not before the one before it, leads to such a log; and one that is completed
-- stays completed, with the same start, end and duration.
pub serve_all-IsRecorded :
    (now : ℕ) (cs : List (ℕ × Call)) (m : MaintenanceLog)
    → IsRecorded now m
    → IsRecorded (time_after now cs) (serve_all now cs m)
      × ((is_completed m.status ≡ false) ⊎ IsFinal m (serve_all now cs m))
serve_all-IsRecorded now cs m h = (
  serve_all-IsRecorded_keeps now cs m h,
  elim (Bool-cases (is_completed m.status)) [
    | inl e ↦ inr (serve_all-IsFinal now cs m h e)
    | inr e ↦ inl e
  ],
)

-- The statuses that no method leads out of to work.
abbrev pub is_out : Status → Bool
is_out scheduled = false
is_out in_progress = false
is_out completed = false
is_out _ = true

serve-is_out :
    (now : ℕ) (c : Call) (m : MaintenanceLog)
    → is_out m.status ≡ true
    → is_out (serve now c m).status ≡ true
unfolding serve save stamp
serve-is_out now (start u) m e = ground arith
serve-is_out now (complete u) m e = ground arith
serve-is_out now (cancel u) m e = ground arith
serve-is_out now (postpone d u) m e = ground arith
serve-is_out now (assign a u) m e = ground arith

-- A log that is postponed, cancelled or newly made by create_log is neither started nor
-- completed by any sequence of calls of the methods and of assignments.
pub serve_all-is_out :
    (now : ℕ) (cs : List (ℕ × Call)) (m : MaintenanceLog)
    → is_out m.status ≡ true
    → is_out (serve_all now cs m).status ≡ true
unfolding serve_all
serve_all-is_out now [] m e = e
serve_all-is_out now ((wait, c) ∷ cs) m e =
    serve_all-is_out (now + wait) cs (serve (now + wait) c m) (serve-is_out (now + wait) c m e)

-- Work under way that update_status completes, that is then set back to scheduled, started again
-- and completed by update_status once more keeps its first end: the duration that is stored runs
-- from the second start back to the first end.
pub update_status-start_maintenance :
    (first second reopened started again : ℕ) (m : MaintenanceLog)
    → m.status ≡ in_progress
    → m.started_at ≡ some first
    → m.completed_at ≡ none
    → let done = update_status second completed m in
      let back = update_status reopened scheduled done in
      let work = stored back (start_maintenance started none back) in
      let m' = update_status again completed work in
      (done.actual_duration ≡ some (pos second -ℤ pos first))
      × (m'.completed_at ≡ some second)
      × (m'.started_at ≡ some started)
      × (m'.actual_duration ≡ some (pos second -ℤ pos started))
unfolding update_status start_maintenance
update_status-start_maintenance first second reopened started again m e s c = ground arith
