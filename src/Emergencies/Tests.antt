-- ===== src/Emergencies/Tests.antt =====
-- Alerts, runs of the code on them, and the theorems at them.
use clustr_be.Base.{ℕ, ◌≡◌, refl, none, some, List, [], ◌∷◌, arith, map}
use clustr_be.Emergencies.{
  serve, SosAlert, active, cancelled, Request, acknowledge, respond, resolve, cancel, revoke,
  serve_all, get_active_alerts, response_time_minutes,
}
use clustr_be.Emergencies.Progress.{AreConsistent, AllAdvance, time_after, serve_all-AllAdvance}

abbrev fire : SosAlert
fire = record {
  id = 1;
  cluster = 1;
  user = 5;
  created_at = 100;
  status = active;
  acknowledged_at = none;
  acknowledged_by = none;
  responded_at = none;
  responded_by = none;
  resolved_at = none;
  resolved_by = none;
  cancelled_at = none;
  cancelled_by = none;
}

abbrev theft : SosAlert
theft = record fire { id = 2; user = 6 }

abbrev calls : List (ℕ × Request)
calls =
    (20, acknowledge 1 9)
    ∷ (100, respond 1 9)
    ∷ (50, revoke 2 5)
    ∷ (200, resolve 1 9)
    ∷ (10, cancel 1 5)
    ∷ []

-- An alert that was resolved can be cancelled, one of another user can not.
after_calls :
    map (λ (a : SosAlert). a.status) (serve_all 100 calls (fire ∷ theft ∷ []))
    ≡ cancelled ∷ active ∷ []
unfolding serve_all serve
after_calls = refl

listed : map (λ (a : SosAlert). a.id) (get_active_alerts 1 (fire ∷ theft ∷ [])) ≡ 1 ∷ 2 ∷ []
unfolding get_active_alerts
listed = refl

two_minutes : response_time_minutes (record fire { responded_at = some 220 }) ≡ some 2
unfolding response_time_minutes
two_minutes = refl

new-AreConsistent : AreConsistent 100 (fire ∷ theft ∷ [])
new-AreConsistent = ground arith

serve_all-AllAdvance_example :
    AreConsistent (time_after 100 calls) (serve_all 100 calls (fire ∷ theft ∷ []))
    × AllAdvance (fire ∷ theft ∷ []) (serve_all 100 calls (fire ∷ theft ∷ []))
serve_all-AllAdvance_example = serve_all-AllAdvance 100 calls (fire ∷ theft ∷ []) new-AreConsistent
