-- ===== src/Emergencies/Methods.antt =====
-- The methods of `class SOSAlert`, core/common/models/emergency/emergency.py. Each changes the row
-- in memory and stores some of its columns; what is modelled is what is stored.
use clustr_be.Base.{ℕ, ◌≡◌, some, arith, if◌then◌else◌}
use clustr_be.Payments.Store.{Result, ok, err, type_error}
use clustr_be.Emergencies.{SosAlert, is_new, is_waiting, is_active}

-- The argument is spelled `udpate_fields`, which `save` does not take.
unfoldable pub acknowledge : ℕ → ℕ → SosAlert → Result SosAlert
acknowledge now user a = if is_new a.status then err type_error else ok a

unfoldable pub start_response : ℕ → ℕ → SosAlert → Result SosAlert
start_response now user a =
    if is_waiting a.status
    then ok (record a { responded_at = some now; responded_by = some user })
    else ok a

unfoldable pub resolve : ℕ → ℕ → SosAlert → Result SosAlert
resolve now user a = if is_active a.status then ok (record a { resolved_by = some user }) else ok a

unfoldable pub cancel : ℕ → ℕ → SosAlert → Result SosAlert
cancel now user a = if is_active a.status then ok (record a { cancelled_by = some user }) else ok a

abbrev pub stored : SosAlert → Result SosAlert → SosAlert
stored a (ok b) = b
stored a (err _) = a

-- None of the methods stores a status or an instant other than that of the response, whatever the
-- alert is in, and acknowledging a new alert raises: the alerts that are listed as active
-- are those that were.
pub methods_keep_status :
    (now user : ℕ) (a : SosAlert)
    → ((stored a (acknowledge now user a)) ≡ a)
      × ((stored a (start_response now user a)).status ≡ a.status)
      × ((stored a (resolve now user a)).status ≡ a.status)
      × ((stored a (resolve now user a)).resolved_at ≡ a.resolved_at)
      × ((stored a (cancel now user a)).status ≡ a.status)
      × ((stored a (cancel now user a)).cancelled_at ≡ a.cancelled_at)
unfolding acknowledge start_response resolve cancel
methods_keep_status now user a =
    (ground arith, ground arith, ground arith, ground arith, ground arith, ground arith)
