-- ===== src/Payments/Ledger.antt =====
-- The table of wallets as a ledger: its validity and its sums under the writes of the code.
use clustr_be.Base.{
  ℕ, ◌≤◌, ◌<◌, ◌≡◌, refl, Bool, none, some, List, [], ◌∷◌, arith, find_first, update_first, sum_by,
}
use clustr_be.Base.Int.{ℤ, pos, ◌≤ℤ◌}
use clustr_be.Base.Lists.{find_first-ne}
use clustr_be.Payments.Types.{Wallet}
use clustr_be.Payments.Store.{Db, wallet_is}

-- No two wallets share an identifier, and all identifiers are below `n`.
abbrev pub AreDistinct : ℕ → List Wallet → Type 0
AreDistinct n [] = Unit
AreDistinct n (w ∷ ws) = (w.id < n) × (find_first (wallet_is w.id) ws ≡ none) × AreDistinct n ws

abbrev pub IsValid : Db → Type 0
IsValid db = AreDistinct db.next_id db.wallets

abbrev pub balance_of : Wallet → ℤ
balance_of w = w.balance

abbrev pub available_of : Wallet → ℤ
available_of w = w.available_balance

-- All the money, and all the money that can be spent.
abbrev pub total_balance : Db → ℤ
total_balance db = sum_by balance_of db.wallets

abbrev pub total_available : Db → ℤ
total_available db = sum_by available_of db.wallets

pub AreDistinct-mono : (n m : ℕ) (ws : List Wallet) → n ≤ m → AreDistinct n ws → AreDistinct m ws
AreDistinct-mono n m [] le h = tt
AreDistinct-mono n m (w ∷ ws) le h = (omega arith, h.1, AreDistinct-mono n m ws le h.2)

pub find_first-fresh :
    (n m : ℕ) (ws : List Wallet) → AreDistinct n ws → (n ≡ m) → find_first (wallet_is m) ws ≡ none
find_first-fresh n m [] h e = refl
find_first-fresh n m (w ∷ ws) h e = ground (arith, find_first-fresh n m ws h.2 e)

-- A wallet that any test finds is found by its identifier.
pub find_first-id :
    (p : Wallet → Bool) (n : ℕ) (w : Wallet) (ws : List Wallet)
    → AreDistinct n ws
    → find_first p ws ≡ some w
    → find_first (wallet_is w.id) ws ≡ some w
find_first-id p n w [] h e = cc
find_first-id p n w (v ∷ ws) h e =
    ground (arith, find_first-id p n w ws h.2, find_first-ne p (wallet_is v.id) w ws)

update_first-none :
    (i j : ℕ) (w : Wallet) (ws : List Wallet)
    → w.id ≡ i
    → find_first (wallet_is j) ws ≡ none
    → find_first (wallet_is j) (update_first (wallet_is i) (λ _. w) ws) ≡ none
update_first-none i j w [] e h = refl
update_first-none i j w (v ∷ ws) e h = ground (arith, update_first-none i j w ws e)

pub AreDistinct-update :
    (n i : ℕ) (w : Wallet) (ws : List Wallet)
    → w.id ≡ i
    → AreDistinct n ws
    → AreDistinct n (update_first (wallet_is i) (λ _. w) ws)
AreDistinct-update n i w [] e h = tt
AreDistinct-update n i w (v ∷ ws) e h =
    ground (arith, AreDistinct-update n i w ws e h.2, update_first-none i v.id w ws e)

-- A wallet owes nothing, and no more than its balance can be spent.
abbrev pub IsSolvent : Wallet → Type 0
IsSolvent w = (pos 0 ≤ℤ w.available_balance) × (w.available_balance ≤ℤ w.balance)

abbrev pub AreSolvent : List Wallet → Type 0
AreSolvent [] = Unit
AreSolvent (w ∷ ws) = IsSolvent w × AreSolvent ws

pub find_first-IsSolvent :
    (p : Wallet → Bool) (w : Wallet) (ws : List Wallet)
    → AreSolvent ws
    → find_first p ws ≡ some w
    → IsSolvent w
find_first-IsSolvent p w [] h e = cc
find_first-IsSolvent p w (v ∷ ws) h e = ground (arith, find_first-IsSolvent p w ws h.1)

pub AreSolvent-update :
    (i : ℕ) (w : Wallet) (ws : List Wallet)
    → AreSolvent ws
    → IsSolvent w
    → AreSolvent (update_first (wallet_is i) (λ _. w) ws)
AreSolvent-update i w [] h k = tt
AreSolvent-update i w (v ∷ ws) h k = ground (arith, AreSolvent-update i w ws h.1 k)
