-- ===== src/Notifications/Tests.antt =====
-- Runs of the notifications, and the theorems at them.
use mathlib.Core.List.Perm
use clustr_be.Base.{ℕ, ◌≡◌, refl, true, false, Option, none, some, List, [], ◌∷◌}
use clustr_be.Payments.Store.{Result, ok, err, attribute_error, field_error, module_not_found}
use clustr_be.Notifications.Events.{
  NotificationChannel, email, sms, websocket, issue_escalated, shift_assigned, bypasses_preferences,
  security_breach,
}
use clustr_be.Notifications.Channels.{
  Recipient, Load, found, raises, modules, send_via_channel, get_channel_instance,
}
use clustr_be.Notifications.{
  send, send_sync, send_with_retry, send_channel, send_notification_internal, dispatch_task,
  log_results_and_return_status, validate_inputs, job_of, send_notification_task_name,
  send_notification_with_retry_task_name, info,
}
use clustr_be.Notifications.Delivery.{
  get_available_channels, send_with_channel_results, send_notification_task,
}
use clustr_be.Notifications.Concurrent.{outcome, send_notification_internal-perm}
use clustr_be.Notifications.Queued.{send-queued, finds_nobody}

abbrev resident : Recipient
resident = record { id = some 4; email_address = some 40 }

abbrev nameless : Recipient
nameless = record { id = some 5; email_address = none }

-- Text messages that work for every event, and no other channel.
abbrev sms_only : NotificationChannel → Load
sms_only sms = found (record { supports_event = λ _. true; deliver = λ _ _. ok true })
sms_only _ = raises module_not_found

abbrev sms_first : List NotificationChannel
sms_first = sms ∷ email ∷ []

abbrev nothing_found : ℕ → List (Option ℕ) → Result (List Recipient)
nothing_found _ _ = err field_error

one_channel :
    send_notification_internal sms_only sms_first issue_escalated (resident ∷ []) ≡ (true, info)
unfolding send_notification_internal send_channel send_via_channel get_channel_instance
    log_results_and_return_status
one_channel = refl

rejected_recipient :
    send_with_retry (λ _. true) 3 issue_escalated (resident ∷ nameless ∷ []) (some 1) []
    ≡ (false, [])
unfolding send_with_retry validate_inputs
rejected_recipient = refl

retried : send_with_retry (λ _. true) 3 issue_escalated (resident ∷ []) (some 1) [] ≡ (
  true,
  job_of send_notification_with_retry_task_name issue_escalated (resident ∷ []) (some 1) (some 3)
      ∷ [],
)
unfolding send_with_retry validate_inputs dispatch_task
retried = refl

no_channel_listed : get_available_channels modules ≡ err attribute_error
unfolding get_available_channels get_channel_instance
no_channel_listed = refl

no_channel_reported :
    send_with_channel_results modules shift_assigned (resident ∷ []) (some 1) ≡ err attribute_error
unfolding send_with_channel_results send_via_channel get_channel_instance validate_inputs
no_channel_reported = refl

critical_fails :
    send_sync modules (websocket ∷ sms ∷ email ∷ []) security_breach (resident ∷ []) (some 1)
    ≡ false
unfolding send_sync validate_inputs send_notification_internal send_channel send_via_channel
    get_channel_instance log_results_and_return_status
critical_fails = refl

accepted : (send (λ _. true) modules sms_first issue_escalated (resident ∷ []) (some 1) []).0 ≡ true
unfolding send validate_inputs dispatch_task bypasses_preferences
accepted = refl

send_notification_internal-perm_example :
    send_notification_internal sms_only sms_first issue_escalated (resident ∷ [])
    ≡ outcome sms_only issue_escalated (resident ∷ [])
send_notification_internal-perm_example =
    send_notification_internal-perm sms_only sms_first issue_escalated (resident ∷ [])
      (Perm.swap email sms [])

send-queued_example :
    let job = job_of send_notification_task_name issue_escalated (resident ∷ []) (some 1) none in
    (bypasses_preferences issue_escalated ≡ false)
    × ((send (λ _. true) modules sms_first issue_escalated (resident ∷ []) (some 1) []).1
        ≡ job ∷ [])
    × (send_notification_task modules sms_first nothing_found (1 ∷ []) job
        ≡ some (finds_nobody nothing_found (1 ∷ []) job))
send-queued_example =
    send-queued (λ _. true) sms_first issue_escalated (resident ∷ []) (some 1) [] nothing_found
      (1 ∷ []) (Perm.swap email sms []) accepted
