-- ===== src/Notifications/Channels.antt =====
-- core/notifications/channels: what importing the module of a channel gives, and
-- `_get_channel_instance`, `_send_via_channel` and `send_channel` of
-- core/common/includes/notifications.py. The cluster and the context are only passed on to the
-- channel, so an instance is taken with both already given.
use clustr_be.Base.{ℕ, Bool, true, false, not, Option, none, some, List, if◌then◌else◌}
use clustr_be.Payments.Store.{Error, Result, ok, err, module_not_found, attribute_error}
use clustr_be.Notifications.Events.{
  NotificationChannel, NotificationEvents, email, sms, websocket, app,
}

-- A member of the list of recipients: an object that may lack the two attributes asked for.
pub record Recipient : Type 0 where
  pub id : Option ℕ
  pub email_address : Option ℕ

pub record Instance : Type 0 where
  pub supports_event : NotificationEvents → Bool
  pub deliver : NotificationEvents → List Recipient → Result Bool

pub data Load : Type 0 where
  found : Instance → Load
  raises : Error → Load

-- The modules of the repository. The class body of `EmailChannel` reads
-- `NotificationTypes.VISITOR_ARRIVAL`, which the package core/common/email_sender has not. The class
-- in sms.py is called `SmsChannel`, not `SMSChannel`. There is no websocket.py and no app.py.
abbrev pub modules : NotificationChannel → Load
modules email = raises attribute_error
modules sms = raises attribute_error
modules websocket = raises module_not_found
modules app = raises module_not_found

-- `ModuleNotFoundError` is an `ImportError`.
abbrev pub is_import_error : Error → Bool
is_import_error module_not_found = true
is_import_error _ = false

module _ (load : NotificationChannel → Load) where
  unfoldable pub get_channel_instance : NotificationChannel → Result (Option Instance)
  get_channel_instance c = elim (load c) [
    | found i ↦ ok (some i)
    | raises e ↦ if is_import_error e then ok none else err e
  ]

  unfoldable pub send_via_channel :
      NotificationEvents → List Recipient → NotificationChannel → Result Bool
  send_via_channel e rs c = elim (get_channel_instance c) [
    | err x ↦ err x
    | ok none ↦ ok true
    | ok (some i) ↦ if not (i.supports_event e) then ok false else i.deliver e rs
  ]
