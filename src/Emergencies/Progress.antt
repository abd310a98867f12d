-- ===== src/Emergencies/Progress.antt =====
-- What any sequence of requests makes of the alerts.
use clustr_be.Base.{
  ℕ, ◌+◌, ◌≤◌, ◌≡◌, refl, true, Option, none, some, List, [], ◌∷◌, arith, is_some, update_first,
  Bool-cases, inl, inr,
}
use clustr_be.Emergencies.{
  SosAlert, EmergencyStatus, active, acknowledged, responding, resolved, cancelled, false_alarm,
  Request, acknowledge, respond, resolve, cancel, revoke, alert_is, acknowledge_alert,
  start_response, resolve_alert, cancel_alert, cancel_own, serve, serve_all,
}

-- How far an alert has come.
abbrev pub stage : EmergencyStatus → ℕ
stage active = 0
stage acknowledged = 1
stage responding = 2
stage resolved = 3
stage false_alarm = 3
stage cancelled = 4

-- Both instants, where both are stored, in this order.
abbrev pub AreOrdered : Option ℕ → Option ℕ → Type 0
AreOrdered none b = Unit
AreOrdered (some a) none = Unit
AreOrdered (some a) (some b) = a ≤ b

-- Each stage that an alert is in has its instant, and the instants are in the order of the
-- stages, from that of the alert to now.
pub record IsConsistent (now : ℕ) (a : SosAlert) : Type 0 where
  pub noted : a.status ≡ acknowledged → is_some a.acknowledged_at ≡ true
  pub answered : a.status ≡ responding → is_some a.responded_at ≡ true
  pub ended : a.status ≡ resolved → is_some a.resolved_at ≡ true
  pub revoked : a.status ≡ cancelled → is_some a.cancelled_at ≡ true
  pub unanswered : stage a.status ≤ 1 → a.responded_at ≡ none
  pub unresolved : stage a.status ≤ 2 → a.resolved_at ≡ none
  pub noted_after : AreOrdered (some a.created_at) a.acknowledged_at
  pub answered_after : AreOrdered a.acknowledged_at a.responded_at
  pub ended_after : AreOrdered a.responded_at a.resolved_at
  pub noted_before : AreOrdered a.acknowledged_at (some now)
  pub answered_before : AreOrdered a.responded_at (some now)
  pub ended_before : AreOrdered a.resolved_at (some now)
  pub created_before : a.created_at ≤ now

-- The same alert, at the same stage or a later one.
abbrev pub Advances : SosAlert → SosAlert → Type 0
Advances a b =
    (b.id ≡ a.id)
    × (b.user ≡ a.user)
    × (b.created_at ≡ a.created_at)
    × (stage a.status ≤ stage b.status)

-- What one step leads to.
abbrev Follows : ℕ → SosAlert → SosAlert → Type 0
Follows now a b = IsConsistent now b × Advances a b

acknowledge_alert-Follows :
    (now wait u : ℕ) (a : SosAlert)
    → IsConsistent now a
    → Follows (now + wait) a (acknowledge_alert (now + wait) u a).1
unfolding acknowledge_alert
acknowledge_alert-Follows now wait u a h = ground arith

start_response-Follows :
    (now wait u : ℕ) (a : SosAlert)
    → IsConsistent now a
    → Follows (now + wait) a (start_response (now + wait) u a).1
unfolding start_response
start_response-Follows now wait u a h = ground arith

resolve_alert-Follows :
    (now wait u : ℕ) (a : SosAlert)
    → IsConsistent now a
    → Follows (now + wait) a (resolve_alert (now + wait) u a).1
unfolding resolve_alert
resolve_alert-Follows now wait u a h = ground arith

cancel_alert-Follows :
    (now wait u : ℕ) (a : SosAlert)
    → IsConsistent now a
    → Follows (now + wait) a (cancel_alert (now + wait) u a).1
unfolding cancel_alert
cancel_alert-Follows now wait u a h = ground arith

cancel_own-Follows :
    (now wait u : ℕ) (a : SosAlert)
    → IsConsistent now a
    → Follows (now + wait) a (cancel_own (now + wait) u a).1
unfolding cancel_own
cancel_own-Follows now wait u a h = ground arith

waits : (now wait : ℕ) (a : SosAlert) → IsConsistent now a → Follows (now + wait) a a
waits now wait a h = ground arith

-- The tables, row by row.
abbrev pub AreConsistent : ℕ → List SosAlert → Type 0
AreConsistent now [] = Unit
AreConsistent now (a ∷ alerts) = IsConsistent now a × AreConsistent now alerts

abbrev pub AllAdvance : List SosAlert → List SosAlert → Type 0
AllAdvance [] [] = Unit
AllAdvance [] (b ∷ later) = ⊥
AllAdvance (a ∷ alerts) [] = ⊥
AllAdvance (a ∷ alerts) (b ∷ later) = Advances a b × AllAdvance alerts later

-- The rest of a table waits.
all_wait :
    (now wait : ℕ) (alerts : List SosAlert)
    → AreConsistent now alerts
    → AreConsistent (now + wait) alerts × AllAdvance alerts alerts
all_wait now wait [] h = (tt, tt)
all_wait now wait (a ∷ alerts) h =
    let (c, v) = waits now wait a h.0 in
    let (cs, vs) = all_wait now wait alerts h.1 in ((c, cs), (v, vs))

update_all :
    (now wait i : ℕ) (f : SosAlert → SosAlert) (alerts : List SosAlert)
    → AreConsistent now alerts
    → ((a : SosAlert) → IsConsistent now a → Follows (now + wait) a (f a))
    → AreConsistent (now + wait) (update_first (alert_is i) f alerts)
      × AllAdvance alerts (update_first (alert_is i) f alerts)
update_all now wait i f [] h k = (tt, tt)
update_all now wait i f (a ∷ alerts) h k =
    let (c, v) = waits now wait a h.0 in
    let (c', v') = k a h.0 in
    let (cs, vs) = all_wait now wait alerts h.1 in
    let (ds, us) = update_all now wait i f alerts h.1 k in
    elim (Bool-cases (alert_is i a)) [
      | inl e ↦ rw e ((c', cs), (v', vs))
      | inr e ↦ rw e ((c, ds), (v, us))
    ]

serve_all_step :
    (now wait : ℕ) (r : Request) (alerts : List SosAlert)
    → AreConsistent now alerts
    → AreConsistent (now + wait) (serve (now + wait) r alerts)
      × AllAdvance alerts (serve (now + wait) r alerts)
unfolding serve
serve_all_step now wait (acknowledge i u) alerts h =
    update_all now wait i _ alerts h (acknowledge_alert-Follows now wait u)
serve_all_step now wait (respond i u) alerts h =
    update_all now wait i _ alerts h (start_response-Follows now wait u)
serve_all_step now wait (resolve i u) alerts h =
    update_all now wait i _ alerts h (resolve_alert-Follows now wait u)
serve_all_step now wait (cancel i u) alerts h =
    update_all now wait i _ alerts h (cancel_alert-Follows now wait u)
serve_all_step now wait (revoke i u) alerts h =
    update_all now wait i _ alerts h (cancel_own-Follows now wait u)

AllAdvance-refl : (alerts : List SosAlert) → AllAdvance alerts alerts
AllAdvance-refl [] = tt
AllAdvance-refl (a ∷ alerts) = ((refl, refl, refl, omega arith), AllAdvance-refl alerts)

Advances-trans : (a b c : SosAlert) → Advances a b → Advances b c → Advances a c
Advances-trans a b c h k = ground arith

AllAdvance-trans :
    (xs ys zs : List SosAlert) → AllAdvance xs ys → AllAdvance ys zs → AllAdvance xs zs
AllAdvance-trans [] [] [] h k = tt
AllAdvance-trans [] [] (z ∷ zs) h k = k
AllAdvance-trans [] (y ∷ ys) zs h k = absurd h
AllAdvance-trans (x ∷ xs) [] zs h k = absurd h
AllAdvance-trans (x ∷ xs) (y ∷ ys) [] h k = k
AllAdvance-trans (x ∷ xs) (y ∷ ys) (z ∷ zs) h k =
    (Advances-trans x y z h.0 k.0, AllAdvance-trans xs ys zs h.1 k.1)

-- The time of the last request.
abbrev pub time_after : ℕ → List (ℕ × Request) → ℕ
time_after now [] = now
time_after now ((wait, r) ∷ rs) = time_after (now + wait) rs

-- From alerts of which each has the instant of the stage that it is in, with the instants of its
-- stages in their order, every sequence of requests, each not before the one before it, leads to
-- such alerts: the same alerts in the same order, each at the stage where it was or at a later
-- one, so that none that was resolved or cancelled is active again.
pub serve_all-AllAdvance :
    (now : ℕ) (rs : List (ℕ × Request)) (alerts : List SosAlert)
    → AreConsistent now alerts
    → AreConsistent (time_after now rs) (serve_all now rs alerts)
      × AllAdvance alerts (serve_all now rs alerts)
unfolding serve_all
serve_all-AllAdvance now [] alerts h = (h, AllAdvance-refl alerts)
serve_all-AllAdvance now ((wait, r) ∷ rs) alerts h =
    let next = serve (now + wait) r alerts in
    let (c, v) = serve_all_step now wait r alerts h in
    let (cs, vs) = serve_all-AllAdvance (now + wait) rs next c in
    (cs, AllAdvance-trans alerts next (serve_all (now + wait) rs next) v vs)
