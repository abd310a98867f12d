-- ===== src/Notifications.antt =====
-- core/common/includes/notifications.py: the sending of a notification over all channels of its
-- event at the same time, its critical and its queued path, and the Celery task of
-- core/common/tasks/notification.py that the queued path starts.
pub mod Events
pub mod Channels
pub mod Delivery
pub mod Concurrent
pub mod Queued
mod Tests
use clustr_be.Base.{
  ℕ, Bool, true, false, not, Option, none, some, List, [], ◌∷◌, map, keep, any, ◌&&◌, if◌then◌else◌,
}
use clustr_be.Payments.Store.{Error, Result, ok, err}
use clustr_be.Notifications.Events.{
  NotificationChannel, NotificationEvents, supported_channels, bypasses_preferences, email, sms,
  websocket, app,
}
use clustr_be.Notifications.Channels.{
  Recipient, Load, Instance, get_channel_instance, send_via_channel,
}

-- What a channel's thread returns.
pub record ChannelResult : Type 0 where
  pub channel : NotificationChannel
  pub success : Bool
  pub error : Option Error

pub data LogLevel : Type 0 where
  info warning error_level : LogLevel

abbrev pub is_empty {ℓ} : {A : Type ℓ} → List A → Bool
is_empty [] = true
is_empty (_ ∷ _) = false

-- The keys of `channel_results` are the channels of an event, which are all different, so the
-- dictionary is the list of the results as they were stored.
unfoldable pub log_results_and_return_status : List ChannelResult → Bool × LogLevel
log_results_and_return_status channel_results =
    let successful = keep (λ a. a.success) channel_results in
    let failed = keep (λ a. not a.success) channel_results in
    if is_empty failed
    then (true, info)
    else if not (is_empty successful)
    then (false, warning)
    else (false, error_level)

module _ (load : NotificationChannel → Load) where
  unfoldable pub send_channel :
      NotificationEvents → List Recipient → NotificationChannel → ChannelResult
  send_channel e rs c = elim (send_via_channel load e rs c) [
    | ok b ↦ record { channel = c; success = b; error = none }
    | err x ↦ record { channel = c; success = false; error = some x }
  ]

  -- `order` is the order in which `as_completed` yields the channels.
  unfoldable pub send_notification_internal :
      List NotificationChannel → NotificationEvents → List Recipient → Bool × LogLevel
  send_notification_internal order e rs =
      if is_empty (supported_channels e)
      then (true, warning)
      else log_results_and_return_status (map (send_channel e rs) order)

abbrev pub is_given {ℓ} : {A : Type ℓ} → Option A → Bool
is_given none = false
is_given (some _) = true

abbrev pub is_invalid : Recipient → Bool
is_invalid r = not (is_given r.email_address && is_given r.id)

-- The types of the four arguments are those of the model, and every event has an entry.
unfoldable pub validate_inputs : List Recipient → Option ℕ → Bool
validate_inputs rs cluster =
    if is_empty rs then true else if any is_invalid rs then false else is_given cluster

unfoldable pub send_sync :
    (NotificationChannel → Load)
    → List NotificationChannel
    → NotificationEvents
    → List Recipient
    → Option ℕ
    → Bool
send_sync load order e rs cluster =
    if not (validate_inputs rs cluster)
    then false
    else (send_notification_internal load order e rs).0

pub data TaskName : Type 0 where
  send_notification_task_name send_notification_with_retry_task_name : TaskName

-- The data of a queued task.
pub record Job : Type 0 where
  pub task : TaskName
  pub event_name : NotificationEvents
  pub recipient_ids : List (Option ℕ)
  pub cluster_id : Option ℕ
  pub max_retries : Option ℕ

abbrev pub job_of : TaskName → NotificationEvents → List Recipient → Option ℕ → Option ℕ → Job
job_of name e rs cluster retries = record {
  task = name;
  event_name = e;
  recipient_ids = map (λ r. r.id) rs;
  cluster_id = cluster;
  max_retries = retries;
}

-- `accepts` tells whether Celery's `delay` queues the task; otherwise it raises.
module _ (accepts : Job → Bool) where
  unfoldable pub dispatch_task :
      TaskName
      → NotificationEvents
      → List Recipient
      → Option ℕ
      → Option ℕ
      → List Job
      → Bool × List Job
  dispatch_task name e rs cluster retries queue =
      let job = job_of name e rs cluster retries in
      if accepts job then (true, job ∷ queue) else (false, queue)

  unfoldable pub send :
      (NotificationChannel → Load)
      → List NotificationChannel
      → NotificationEvents
      → List Recipient
      → Option ℕ
      → List Job
      → Bool × List Job
  send load order e rs cluster queue =
      if not (validate_inputs rs cluster)
      then (false, queue)
      else if bypasses_preferences e
      then (send_sync load order e rs cluster, queue)
      else dispatch_task send_notification_task_name e rs cluster none queue

  unfoldable pub send_with_retry :
      ℕ → NotificationEvents → List Recipient → Option ℕ → List Job → Bool × List Job
  send_with_retry max_retries e rs cluster queue =
      if not (validate_inputs rs cluster)
      then (false, queue)
      else dispatch_task send_notification_with_retry_task_name e rs cluster (some max_retries)
          queue
