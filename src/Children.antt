-- ===== src/Children.antt =====
-- The outings of children: core/common/models/child, and the handlers of management/views_child.py,
-- members/views_child.py and core/common/tasks on them. An instant is a number of seconds, so that
-- its date and its time of day are the quotient and the rest by a day.
pub mod Outings
pub mod Register
pub mod Counts
pub mod Accounted
mod Tests
use Prim.Native.String.{String}
use clustr_be.Base.{
  ℕ, ◌+◌, ◌-◌, ◌*◌, ◌/◌, ◌%◌, Bool, true, false, ◌&&◌, Option, none, some, List, [], ◌∷◌, ◌++◌, not,
  ltb, ◌==◌, if◌then◌else◌, find_first, update_first, map, is_some,
}

pub data Status : Type 0 where
  pending approved denied expired : Status

pub record ExitRequest : Type 0 where
  pub id : ℕ
  pub request_id : Option String
  pub status : Status
  pub expected_return_time : ℕ
  pub expires_at : ℕ
  pub approved_by : Option ℕ
  pub approved_at : Option ℕ
  pub denied_by : Option ℕ
  pub denied_at : Option ℕ
  pub denial_reason : String

abbrev pub is_pending : Status → Bool
is_pending pending = true
is_pending _ = false

abbrev pub is_approved : Status → Bool
is_approved approved = true
is_approved _ = false

abbrev pub is_expired : ℕ → ExitRequest → Bool
is_expired now q = ltb q.expires_at now

-- The methods `approve` and `deny`: whether they succeed, and the saved row.
unfoldable pub approve : ℕ → ℕ → ExitRequest → Bool × ExitRequest
approve now user q =
    if is_pending q.status && not (is_expired now q)
    then (true, record q { status = approved; approved_by = some user; approved_at = some now })
    else (false, q)

unfoldable pub deny : ℕ → ℕ → String → ExitRequest → Bool × ExitRequest
deny now user reason q =
    if is_pending q.status
    then (
      true,
      record q {
        status = denied;
        denied_by = some user;
        denied_at = some now;
        denial_reason = reason;
      },
    )
    else (false, q)

pub data LogType : Type 0 where
  exit entry : LogType

pub data LogStatus : Type 0 where
  scheduled in_progress completed overdue : LogStatus

pub record EntryExitLog : Type 0 where
  pub id : ℕ
  pub exit_request : Option ℕ
  pub log_type : LogType
  pub status : LogStatus
  pub date : ℕ
  pub exit_time : Option ℕ
  pub entry_time : Option ℕ
  pub expected_return_time : Option ℕ
  pub actual_return_time : Option ℕ
  pub verified_by : Option ℕ

abbrev pub day : ℕ
day = 86400

abbrev pub is_exit : LogType → Bool
is_exit exit = true
is_exit entry = false

abbrev pub is_scheduled : LogStatus → Bool
is_scheduled scheduled = true
is_scheduled _ = false

abbrev pub is_in_progress : LogStatus → Bool
is_in_progress in_progress = true
is_in_progress _ = false

abbrev pub is_past : ℕ → Option ℕ → Bool
is_past now none = false
is_past now (some t) = ltb t now

abbrev pub or_kept : Option ℕ → Option ℕ → Option ℕ
or_kept none old = old
or_kept (some new) old = some new

unfoldable pub is_overdue : ℕ → EntryExitLog → Bool
is_overdue now l =
    if is_exit l.log_type && is_some l.expected_return_time
    then is_in_progress l.status && is_past now l.expected_return_time
    else false

-- An entry before the exit is on the next day.
abbrev pub minutes_between : ℕ → Option ℕ → Option ℕ → Option ℕ
minutes_between date none back = none
minutes_between date (some left) none = none
minutes_between date (some left) (some back) =
    let entry_date = if ltb back left then date + 1 else date in
    some (((day * entry_date + back) - (day * date + left)) / 60)

unfoldable pub duration_minutes : EntryExitLog → Option ℕ
duration_minutes l = minutes_between l.date l.exit_time l.entry_time

unfoldable pub mark_exit : ℕ → Option ℕ → EntryExitLog → Bool × EntryExitLog
mark_exit now verified_by l =
    if is_exit l.log_type && is_scheduled l.status
    then (
      true,
      record l {
        status = in_progress;
        exit_time = some (now % day);
        verified_by = or_kept verified_by l.verified_by;
      },
    )
    else (false, l)

unfoldable pub mark_entry : ℕ → Option ℕ → EntryExitLog → Bool × EntryExitLog
mark_entry now verified_by l =
    if is_exit l.log_type && is_in_progress l.status
    then (
      true,
      record l {
        status = completed;
        entry_time = some (now % day);
        actual_return_time = some now;
        verified_by = or_kept verified_by l.verified_by;
      },
    )
    else (false, l)

unfoldable pub mark_overdue : ℕ → EntryExitLog → Bool × EntryExitLog
unfolding is_overdue
mark_overdue now l =
    if is_overdue now l && is_in_progress l.status
    then (true, record l { status = overdue })
    else (false, l)
