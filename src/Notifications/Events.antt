-- ===== src/Notifications/Events.antt =====
-- The events, priorities and channels of core/notifications/events.py.
use clustr_be.Base.{Bool, true, false, List, [], ◌∷◌}

pub data NotificationPriority : Type 0 where
  critical high medium low : NotificationPriority

pub data NotificationChannel : Type 0 where
  email sms websocket app : NotificationChannel

pub data NotificationEvents : Type 0 where
  emergency_alert emergency_status_changed security_breach visitor_arrival : NotificationEvents
  visitor_overstay maintenance_urgent child_exit_alert child_entry_alert : NotificationEvents
  child_overdue_alert payment_due payment_overdue payment_confirmed : NotificationEvents
  announcement_posted exit_request_reminder issue_assigned : NotificationEvents
  issue_status_changed issue_escalated issue_overdue issue_auto_escalated : NotificationEvents
  task_due maintenance_scheduled maintenance_completed bill_created : NotificationEvents
  bill_overdue bill_reminder bill_status_changed bill_cancelled : NotificationEvents
  bill_acknowledged bill_disputed payment_failed payment_paused : NotificationEvents
  payment_resumed payment_cancelled payment_updated payment_setup : NotificationEvents
  payment_successful recurring_payment_reminder shift_assigned shift_reminder : NotificationEvents
  shift_missed shift_swap_request shift_swap_response maintenance_due : NotificationEvents
  maintenance_requested comment_added comment_reply newsletter system_update : NotificationEvents

-- The registry NOTIFICATION_EVENTS has an entry for each event.
abbrev pub priority : NotificationEvents → NotificationPriority
priority emergency_alert = critical
priority emergency_status_changed = high
priority security_breach = critical
priority visitor_arrival = high
priority visitor_overstay = high
priority maintenance_urgent = high
priority child_exit_alert = high
priority child_entry_alert = high
priority child_overdue_alert = high
priority payment_due = medium
priority payment_overdue = medium
priority payment_confirmed = medium
priority announcement_posted = medium
priority exit_request_reminder = medium
priority issue_assigned = medium
priority issue_status_changed = medium
priority issue_escalated = high
priority issue_overdue = high
priority issue_auto_escalated = high
priority task_due = medium
priority maintenance_scheduled = medium
priority maintenance_completed = medium
priority bill_created = medium
priority bill_overdue = high
priority bill_reminder = medium
priority bill_status_changed = medium
priority bill_cancelled = medium
priority bill_acknowledged = low
priority bill_disputed = high
priority payment_failed = high
priority payment_paused = medium
priority payment_resumed = medium
priority payment_cancelled = medium
priority payment_updated = low
priority payment_setup = low
priority payment_successful = medium
priority recurring_payment_reminder = medium
priority shift_assigned = medium
priority shift_reminder = medium
priority shift_missed = high
priority shift_swap_request = medium
priority shift_swap_response = medium
priority maintenance_due = medium
priority maintenance_requested = medium
priority comment_added = low
priority comment_reply = low
priority newsletter = low
priority system_update = low

abbrev pub supported_channels : NotificationEvents → List NotificationChannel
supported_channels emergency_alert = email ∷ sms ∷ websocket ∷ app ∷ []
supported_channels emergency_status_changed = email ∷ sms ∷ websocket ∷ []
supported_channels security_breach = email ∷ sms ∷ websocket ∷ []
supported_channels visitor_arrival = email ∷ websocket ∷ app ∷ []
supported_channels visitor_overstay = email ∷ sms ∷ websocket ∷ []
supported_channels maintenance_urgent = email ∷ sms ∷ []
supported_channels child_exit_alert = email ∷ sms ∷ websocket ∷ app ∷ []
supported_channels child_entry_alert = email ∷ sms ∷ websocket ∷ app ∷ []
supported_channels child_overdue_alert = email ∷ sms ∷ websocket ∷ app ∷ []
supported_channels payment_due = email ∷ []
supported_channels payment_overdue = email ∷ sms ∷ []
supported_channels payment_confirmed = email ∷ []
supported_channels announcement_posted = email ∷ websocket ∷ app ∷ []
supported_channels exit_request_reminder = email ∷ sms ∷ websocket ∷ []
supported_channels issue_assigned = email ∷ []
supported_channels issue_status_changed = email ∷ []
supported_channels issue_escalated = email ∷ sms ∷ []
supported_channels issue_overdue = email ∷ sms ∷ []
supported_channels issue_auto_escalated = email ∷ sms ∷ []
supported_channels task_due = email ∷ []
supported_channels maintenance_scheduled = email ∷ []
supported_channels maintenance_completed = email ∷ []
supported_channels bill_created = email ∷ websocket ∷ []
supported_channels bill_overdue = email ∷ sms ∷ []
supported_channels bill_reminder = email ∷ []
supported_channels bill_status_changed = email ∷ []
supported_channels bill_cancelled = email ∷ []
supported_channels bill_acknowledged = email ∷ []
supported_channels bill_disputed = email ∷ sms ∷ []
supported_channels payment_failed = email ∷ sms ∷ []
supported_channels payment_paused = email ∷ []
supported_channels payment_resumed = email ∷ []
supported_channels payment_cancelled = email ∷ []
supported_channels payment_updated = email ∷ []
supported_channels payment_setup = email ∷ []
supported_channels payment_successful = email ∷ websocket ∷ []
supported_channels recurring_payment_reminder = email ∷ []
supported_channels shift_assigned = email ∷ websocket ∷ []
supported_channels shift_reminder = email ∷ sms ∷ []
supported_channels shift_missed = email ∷ sms ∷ []
supported_channels shift_swap_request = email ∷ websocket ∷ []
supported_channels shift_swap_response = email ∷ []
supported_channels maintenance_due = email ∷ sms ∷ []
supported_channels maintenance_requested = email ∷ websocket ∷ []
supported_channels comment_added = email ∷ []
supported_channels comment_reply = email ∷ []
supported_channels newsletter = email ∷ []
supported_channels system_update = email ∷ []

abbrev pub is_critical : NotificationPriority → Bool
is_critical critical = true
is_critical _ = false

-- `NotificationEvent.bypasses_preferences`
unfoldable pub bypasses_preferences : NotificationEvents → Bool
bypasses_preferences e = is_critical (priority e)
