-- ===== src/Children/Tests.antt =====
-- A child and its outings, and the theorems at them.
use clustr_be.Base.{ℕ, map, ◌≡◌, refl, none, some, List, [], ◌∷◌}
use clustr_be.Children.{EntryExitLog, ExitRequest, pending, exit, scheduled, duration_minutes}
use clustr_be.Children.Outings.{Call, exit_call, entry_call, run}
use clustr_be.Children.Register.{
  Register, create_request, create_log, approve_request, cancel_request, log_exit, log_entry,
  expire_requests, check_overdue, Request, serve_all,
}
use clustr_be.Children.Counts.{count_logs}

abbrev swimming : EntryExitLog
swimming = record {
  id = 1;
  exit_request = some 0;
  log_type = exit;
  status = scheduled;
  date = 10;
  exit_time = none;
  entry_time = none;
  expected_return_time = some 868000;
  actual_return_time = none;
  verified_by = none;
}

-- Out a minute before midnight and back five minutes after it.
abbrev calls : List Call
calls = entry_call 950000 none ∷ exit_call 950340 (some 7) ∷ entry_call 950700 (some 7) ∷ []

swimming_minutes : duration_minutes (run calls swimming) ≡ some 6
unfolding duration_minutes run
swimming_minutes = refl

-- A request that waits, with the identifier given.
abbrev waiting : ℕ → ℕ → ExitRequest
waiting id expires = record {
  id = id;
  request_id = some "EXIT";
  status = pending;
  expected_return_time = 868000;
  expires_at = expires;
  approved_by = none;
  approved_at = none;
  denied_by = none;
  denied_at = none;
  denial_reason = "";
}

abbrev filed : Register
filed = record {
  requests = waiting 0 870000 ∷ waiting 1 870000 ∷ waiting 2 866000 ∷ [];
  logs = [];
  next_id = 3;
}

-- The first request is approved once, the second is cancelled but gets a log by hand, and the third
-- expires.
abbrev day_of_requests : List Request
day_of_requests =
    create_request 868000 870000
    ∷ approve_request 865000 5 0
    ∷ approve_request 865001 5 0
    ∷ cancel_request 865002 9 1
    ∷ approve_request 865003 5 1
    ∷ create_log 865004 (some 1) exit 10 (some 868000)
    ∷ create_log 865004 (some 9) exit 10 none
    ∷ approve_request 867000 5 2
    ∷ log_exit 867000 (some 7) 3
    ∷ expire_requests 867000
    ∷ check_overdue 868001
    ∷ log_entry 868100 (some 7) 3
    ∷ []

logs_made :
    map (λ i. count_logs i (serve_all day_of_requests filed).logs) (0 ∷ 1 ∷ 2 ∷ []) ≡ 1 ∷ 1 ∷ 0 ∷ []
unfolding serve_all
logs_made = refl
