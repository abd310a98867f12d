-- ===== src/Notifications/Concurrent.antt =====
-- The outcome of a notification does not depend on the order in which its channels finish.
use mathlib.Core.List.{Perm, Permᴰ}
use mathlib.Core.Logic.{∥∥₁_elim}
use clustr_be.Base.{
  ◌≡◌, refl, ap, ◌∙◌, Bool, true, false, not, List, [], ◌∷◌, map, keep, any, arith, if◌then◌else◌,
}
use clustr_be.Payments.Store.{ok, err}
use clustr_be.Notifications.Events.{NotificationChannel, NotificationEvents, supported_channels}
use clustr_be.Notifications.Channels.{Recipient, Load, send_via_channel}
use clustr_be.Notifications.{
  LogLevel, info, warning, error_level, is_empty, log_results_and_return_status, send_channel,
  send_notification_internal,
}

-- A channel delivers when it neither raises nor answers false.
unfoldable pub delivers :
    (NotificationChannel → Load) → NotificationEvents → List Recipient → NotificationChannel → Bool
delivers load e rs c = elim (send_via_channel load e rs c) [ ok b ↦ b | err _ ↦ false ]

-- What the sending to the channels one after the other, in the order of the registry, comes to.
unfoldable pub outcome :
    (NotificationChannel → Load) → NotificationEvents → List Recipient → Bool × LogLevel
outcome load e rs =
    let cs = supported_channels e in
    if is_empty cs
    then (true, warning)
    else if not (any (λ c. not (delivers load e rs c)) cs)
    then (true, info)
    else if any (delivers load e rs) cs
    then (false, warning)
    else (false, error_level)

any_perm_d : {A : Type 0} (p : A → Bool) {xs ys : List A} → Permᴰ xs ys → any p xs ≡ any p ys
any_perm_d p Permᴰ.nil = refl
any_perm_d p (Permᴰ.cons e d) = ground (arith, any_perm_d p d)
any_perm_d p (Permᴰ.swap e f) = ground arith
any_perm_d p (Permᴰ.trans d k) = any_perm_d p d ∙ any_perm_d p k

send_channel_success :
    (load : NotificationChannel → Load) (e : NotificationEvents) (rs : List Recipient)
    (c : NotificationChannel)
    → (send_channel load e rs c).success ≡ delivers load e rs c
unfolding send_channel delivers
send_channel_success load e rs c = ground arith

keep-any : {A : Type 0} (p : A → Bool) (xs : List A) → is_empty (keep p xs) ≡ not (any p xs)
keep-any p [] = refl
keep-any p (x ∷ xs) = ground (arith, keep-any p xs)

any_perm : {A : Type 0} (p : A → Bool) {xs ys : List A} → Perm xs ys → any p xs ≡ any p ys
any_perm p d = ∥∥₁_elim d (hlevel) (any_perm_d p)

any-map :
    {A B : Type 0} (f : A → B) (p : B → Bool) (q : A → Bool) (xs : List A)
    → ((x : A) → p (f x) ≡ q x)
    → any p (map f xs) ≡ any q xs
any-map f p q [] h = refl
any-map f p q (x ∷ xs) h = ground (arith, any-map f p q xs h, h x)

-- Whatever order the threads of the channels finish in, the notification succeeds and is logged as
-- it is when its channels are served one after the other: it succeeds when no channel raises or
-- answers false, and otherwise is a partial success when some channel delivers and a failure of all
-- channels when none does.
pub send_notification_internal-perm :
    (load : NotificationChannel → Load) (order : List NotificationChannel) (e : NotificationEvents)
    (rs : List Recipient)
    → Perm order (supported_channels e)
    → send_notification_internal load order e rs ≡ outcome load e rs
unfolding send_notification_internal outcome log_results_and_return_status
send_notification_internal-perm load order e rs p =
    let f = send_channel load e rs in
    let d = delivers load e rs in
    ground (
      arith,
      keep-any (λ a. a.success) (map f order),
      keep-any (λ a. not a.success) (map f order),
      any-map f (λ a. a.success) d order (λ c. send_channel_success load e rs c),
      any-map f (λ a. not a.success) (λ c. not (d c)) order
          (λ c. ap not (send_channel_success load e rs c)),
      any_perm d p,
      any_perm (λ c. not (d c)) p,
    )
