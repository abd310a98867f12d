-- ===== src/Maintenance/Tests.antt =====
-- Maintenance logs, runs of the code on them, and the theorems at them.
use clustr_be.Base.{ℕ, ◌≡◌, ◌⊎◌, refl, true, false, none, some, List, [], ◌∷◌}
use clustr_be.Base.Int.{pos, ◌-ℤ◌}
use clustr_be.Maintenance.{
  MaintenanceLog, scheduled, in_progress, is_completed, create_log, calculate_next_due_date, weekly,
  custom, is_overdue,
}
use clustr_be.Maintenance.Lifecycle.{
  Call, start, complete, assign, serve, serve_all, time_after, IsRecorded, IsFinal,
  serve_all-IsRecorded, is_out, serve_all-is_out,
}

abbrev lift : MaintenanceLog
lift = record (create_log 0 50 1 5) { status = scheduled; scheduled_date = some 900 }

abbrev repair : List (ℕ × Call)
repair =
    (100, assign 6 1) ∷ (1000, start (some 6)) ∷ (3600, complete (some 6)) ∷ (60, start none) ∷ []

repaired : (serve_all 0 repair lift).actual_duration ≡ some (pos 3600)
unfolding serve_all serve ◌-ℤ◌
repaired = refl

lift-IsRecorded : IsRecorded 0 lift
unfolding create_log
lift-IsRecorded = record { ended = refl; under_way = λ e. e; done = λ e. e; timed = tt }

serve_all-IsRecorded_example :
    IsRecorded (time_after 0 repair) (serve_all 0 repair lift)
    × ((is_completed lift.status ≡ false) ⊎ IsFinal lift (serve_all 0 repair lift))
serve_all-IsRecorded_example = serve_all-IsRecorded 0 repair lift lift-IsRecorded

serve_all-is_out_example : is_out (serve_all 0 repair (create_log 0 51 1 5)).status ≡ true
unfolding create_log
serve_all-is_out_example = serve_all-is_out 0 repair (create_log 0 51 1 5) refl

late : is_overdue 901 lift ≡ true
unfolding is_overdue
late = refl

next_week : calculate_next_due_date weekly 2 100 ≡ 1209700
unfolding calculate_next_due_date
next_week = refl

next_custom : calculate_next_due_date custom 1 0 ≡ 2592000
unfolding calculate_next_due_date
next_custom = refl

abbrev busy : MaintenanceLog
busy = record lift { status = in_progress; started_at = some 10 }
