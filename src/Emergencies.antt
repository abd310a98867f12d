-- ===== src/Emergencies.antt =====
-- core/common/models/emergency/emergency.py, the functions of core/common/includes/emergencies.py
-- that change an alert, and the requests of the views that call them.
pub mod Progress
pub mod Methods
mod Tests
use clustr_be.Base.{
  ℕ, ◌-◌, ◌/◌, Bool, true, false, ◌&&◌, ◌||◌, ◌==◌, ◌+◌, Option, none, some, List, [], ◌∷◌, not,
  if◌then◌else◌, keep, update_first,
}
use clustr_be.Payments.Store.{Result, ok, err, type_error}

pub data EmergencyStatus : Type 0 where
  active acknowledged responding resolved cancelled false_alarm : EmergencyStatus

pub record SosAlert : Type 0 where
  pub id : ℕ
  pub cluster : ℕ
  pub user : ℕ
  pub created_at : ℕ
  pub status : EmergencyStatus
  pub acknowledged_at : Option ℕ
  pub acknowledged_by : Option ℕ
  pub responded_at : Option ℕ
  pub responded_by : Option ℕ
  pub resolved_at : Option ℕ
  pub resolved_by : Option ℕ
  pub cancelled_at : Option ℕ
  pub cancelled_by : Option ℕ

abbrev pub is_new : EmergencyStatus → Bool
is_new active = true
is_new _ = false

-- `status in [ACTIVE, ACKNOWLEDGED]`
abbrev pub is_waiting : EmergencyStatus → Bool
is_waiting active = true
is_waiting acknowledged = true
is_waiting _ = false

-- `SOSAlert.is_active`
abbrev pub is_active : EmergencyStatus → Bool
is_active active = true
is_active acknowledged = true
is_active responding = true
is_active _ = false

-- `SOSAlert.objects.create` is given `severity`, which is no field, and the views pass on
-- `priority`, which is no parameter: both calls raise.
abbrev pub create_alert : Result SosAlert
create_alert = err type_error

-- The functions on a loaded alert, whose columns they store: whether it was done, and the row.
unfoldable pub acknowledge_alert : ℕ → ℕ → SosAlert → Bool × SosAlert
acknowledge_alert now user a = if not (is_new a.status) then (false, a) else (
  true,
  record a { status = acknowledged; acknowledged_at = some now; acknowledged_by = some user },
)

unfoldable pub start_response : ℕ → ℕ → SosAlert → Bool × SosAlert
start_response now user a =
    if not (is_waiting a.status)
    then (false, a)
    else (true, record a { status = responding; responded_at = some now; responded_by = some user })

unfoldable pub resolve_alert : ℕ → ℕ → SosAlert → Bool × SosAlert
resolve_alert now user a =
    if not (is_active a.status)
    then (false, a)
    else (true, record a { status = resolved; resolved_at = some now; resolved_by = some user })

-- The notice names an event that is not there; the exception is caught.
unfoldable pub cancel_alert : ℕ → ℕ → SosAlert → Bool × SosAlert
cancel_alert now user a =
    (true, record a { status = cancelled; cancelled_at = some now; cancelled_by = some user })

-- The view of the members: only the one who raised an alert cancels it.
unfoldable pub cancel_own : ℕ → ℕ → SosAlert → Bool × SosAlert
unfolding cancel_alert
cancel_own now user a = if not (a.user == user) then (false, a) else cancel_alert now user a

-- `get_active_alerts`, over the table in its order by `-created_at`.
unfoldable pub get_active_alerts : ℕ → List SosAlert → List SosAlert
get_active_alerts cluster = keep (λ a. a.cluster == cluster && is_active a.status)

-- The whole minutes from the alert to the response, or to the end.
abbrev pub minutes_after : ℕ → Option ℕ → Option ℕ
minutes_after created none = none
minutes_after created (some t) = some ((t - created) / 60)

unfoldable pub response_time_minutes : SosAlert → Option ℕ
response_time_minutes a = minutes_after a.created_at a.responded_at

unfoldable pub resolution_time_minutes : SosAlert → Option ℕ
resolution_time_minutes a = minutes_after a.created_at a.resolved_at

pub data Request : Type 0 where
  acknowledge respond resolve cancel revoke : ℕ → ℕ → Request

abbrev pub alert_is : ℕ → SosAlert → Bool
alert_is i a = a.id == i

-- The actions of the views, for an alert and a user.
unfoldable pub serve : ℕ → Request → List SosAlert → List SosAlert
unfolding acknowledge_alert start_response resolve_alert cancel_alert cancel_own
serve now (acknowledge i u) = update_first (alert_is i) (λ a. (acknowledge_alert now u a).1)
serve now (respond i u) = update_first (alert_is i) (λ a. (start_response now u a).1)
serve now (resolve i u) = update_first (alert_is i) (λ a. (resolve_alert now u a).1)
serve now (cancel i u) = update_first (alert_is i) (λ a. (cancel_alert now u a).1)
serve now (revoke i u) = update_first (alert_is i) (λ a. (cancel_own now u a).1)

-- The requests come one after the other, each so long after the one before.
unfoldable pub serve_all : ℕ → List (ℕ × Request) → List SosAlert → List SosAlert
serve_all now [] alerts = alerts
serve_all now ((wait, r) ∷ rs) alerts = serve_all (now + wait) rs (serve (now + wait) r alerts)
