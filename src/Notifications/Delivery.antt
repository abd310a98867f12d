-- ===== src/Notifications/Delivery.antt =====
-- core/common/tasks/notification.py, the task that a queued notification starts, and the two reports
-- of core/common/includes/notifications.py on single channels.
use clustr_be.Base.{
  ℕ, Bool, true, false, not, Option, none, some, List, [], ◌∷◌, contains, if◌then◌else◌,
}
use clustr_be.Payments.Store.{Result, ok, err, type_error}
use clustr_be.Notifications.Events.{
  NotificationChannel, NotificationEvents, supported_channels, email, sms, websocket, app,
}
use clustr_be.Notifications.Channels.{Recipient, Load, get_channel_instance, send_via_channel}
use clustr_be.Notifications.{
  LogLevel, Job, is_empty, is_given, validate_inputs, send_notification_internal,
}

-- `list(batch)`: a row of the user model cannot be iterated.
abbrev pub list_of : Recipient → Result (List Recipient)
list_of _ = err type_error

module _ (load : NotificationChannel → Load) where
  -- The loop over `recipients.iterator(chunk_size=100)`, which yields single rows. The outcomes that
  -- the loop ignores are collected.
  abbrev pub send_batches :
      List NotificationChannel
      → NotificationEvents
      → List Recipient
      → Result (List (Bool × LogLevel))
  send_batches order e [] = ok []
  send_batches order e (batch ∷ rest) =
      let later = send_batches order e rest in
      elim (list_of batch) [
        | err x ↦ err x
        | ok rs ↦ elim later [
          | err x ↦ err x
          | ok sent ↦ ok (send_notification_internal load order e rs ∷ sent)
        ]
      ]

  -- `query` is what Django gives for `User.objects.filter(cluster_id=..., pk__in=...)`. The function
  -- ends without a `return` after the loop, which is `none` here.
  unfoldable pub send_notification_task :
      List NotificationChannel
      → (ℕ → List (Option ℕ) → Result (List Recipient))
      → List ℕ
      → Job
      → Option Bool
  send_notification_task order query clusters job = elim job.cluster_id [
    | none ↦ some false
    | some c ↦ if not (contains c clusters) then some false else elim (query c job.recipient_ids) [
      | err _ ↦ some false
      | ok rs ↦
          if is_empty rs
          then some true
          else elim (send_batches order job.event_name rs) [ err _ ↦ some false | ok _ ↦ none ]
    ]
  ]

  -- The list comprehension over the channels `cs`.
  abbrev pub available_among : List NotificationChannel → Result (List NotificationChannel)
  available_among [] = ok []
  available_among (c ∷ cs) =
      let later = available_among cs in
      elim (get_channel_instance load c) [
        | err x ↦ err x
        | ok i ↦ elim later [ err x ↦ err x | ok rest ↦ ok (if is_given i then c ∷ rest else rest) ]
      ]

  unfoldable pub get_available_channels : Result (List NotificationChannel)
  get_available_channels = available_among (email ∷ sms ∷ websocket ∷ app ∷ [])

  abbrev pub results_of :
      NotificationEvents
      → List Recipient
      → List NotificationChannel
      → Result (List (NotificationChannel × Bool))
  results_of e rs [] = ok []
  results_of e rs (c ∷ cs) =
      let later = results_of e rs cs in
      elim (send_via_channel load e rs c) [
        | err x ↦ err x
        | ok b ↦ elim later [ err x ↦ err x | ok rest ↦ ok ((c, b) ∷ rest) ]
      ]

  unfoldable pub send_with_channel_results :
      NotificationEvents → List Recipient → Option ℕ → Result (List (NotificationChannel × Bool))
  send_with_channel_results e rs cluster =
      if not (validate_inputs rs cluster)
      then ok []
      else if is_empty rs
      then ok []
      else results_of e rs (supported_channels e)
