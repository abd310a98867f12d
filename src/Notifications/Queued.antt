-- ===== src/Notifications/Queued.antt =====
-- What becomes of a notification with the channel modules that the repository has.
use mathlib.Core.List.{Perm}
use clustr_be.Base.{
  ℕ, ◌≡◌, refl, Bool, true, false, not, Option, none, some, List, ◌∷◌, any, ◌&&◌, contains, arith,
}
use clustr_be.Payments.Store.{Result, ok, err, type_error}
use clustr_be.Notifications.Events.{
  NotificationChannel, NotificationEvents, supported_channels, bypasses_preferences,
}
use clustr_be.Notifications.Channels.{
  Recipient, Load, modules, get_channel_instance, send_via_channel,
}
use clustr_be.Notifications.{
  Job, is_empty, job_of, send_sync, send_notification_task_name, dispatch_task, send,
}
use clustr_be.Notifications.Delivery.{send_batches, send_notification_task}
use clustr_be.Notifications.Concurrent.{delivers, outcome, send_notification_internal-perm}

email_fails :
    (e : NotificationEvents) (rs : List Recipient)
    → any (λ c. not (delivers modules e rs c)) (supported_channels e) ≡ true
unfolding delivers send_via_channel get_channel_instance
email_fails e rs = ground arith

outcome_fails : (e : NotificationEvents) (rs : List Recipient) → (outcome modules e rs).0 ≡ false
unfolding outcome
outcome_fails e rs = ground (arith, email_fails e rs)

send_batches_fails :
    (load : NotificationChannel → Load) (order : List NotificationChannel) (e : NotificationEvents)
    (r : Recipient) (rs : List Recipient)
    → (send_batches load order e (r ∷ rs)) ≡ err type_error
send_batches_fails load order e r rs = refl

-- The cluster is known, and the query for the recipients gives no row.
unfoldable pub finds_nobody : (ℕ → List (Option ℕ) → Result (List Recipient)) → List ℕ → Job → Bool
finds_nobody query clusters job = elim job.cluster_id [
  | none ↦ false
  | some c ↦
      contains c clusters
      && elim (query c job.recipient_ids) [ err _ ↦ false | ok rs ↦ is_empty rs ]
]

task_answer :
    (load : NotificationChannel → Load) (order : List NotificationChannel)
    (query : ℕ → List (Option ℕ) → Result (List Recipient)) (clusters : List ℕ) (job : Job)
    → send_notification_task load order query clusters job ≡ some (finds_nobody query clusters job)
unfolding send_notification_task finds_nobody
task_answer load order query clusters job = ground arith

-- The sending that is not queued fails for every event.
sync_fails :
    (order : List NotificationChannel) (e : NotificationEvents) (rs : List Recipient)
    (cluster : Option ℕ)
    → Perm order (supported_channels e)
    → send_sync modules order e rs cluster ≡ false
unfolding send_sync
sync_fails order e rs cluster p =
    ground (arith, send_notification_internal-perm modules order e rs p, outcome_fails e rs)

-- With the channel modules of the repository, a notification whose sending is reported as a success
-- has not been sent: its event is not critical, all that has happened is that a task was queued in
-- front of the earlier ones, and that task, whenever it runs and whatever its query for the
-- recipients gives, sends nothing: it answers whether the query found nobody.
pub send-queued :
    (accepts : Job → Bool) (order : List NotificationChannel) (e : NotificationEvents)
    (rs : List Recipient) (cluster : Option ℕ) (queue : List Job)
    (query : ℕ → List (Option ℕ) → Result (List Recipient)) (clusters : List ℕ)
    → Perm order (supported_channels e)
    → (send accepts modules order e rs cluster queue).0 ≡ true
    → let job = job_of send_notification_task_name e rs cluster none in
      (bypasses_preferences e ≡ false)
      × ((send accepts modules order e rs cluster queue).1 ≡ job ∷ queue)
      × (send_notification_task modules order query clusters job
          ≡ some (finds_nobody query clusters job))
unfolding send dispatch_task
send-queued accepts order e rs cluster queue query clusters p h =
    let job = job_of send_notification_task_name e rs cluster none in
    ground (arith, sync_fails order e rs cluster p, task_answer modules order query clusters job)
