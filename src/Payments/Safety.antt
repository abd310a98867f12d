-- ===== src/Payments/Safety.antt =====
-- What the payments by wallet and the credits and transfers of a cluster's wallet promise of the
-- money in all wallets together, on every outcome.
use clustr_be.Base.{ℕ, ◌≡◌, refl, Option, some}
use clustr_be.Base.Int.{ℤ, pos, ◌+ℤ◌, ◌-ℤ◌}
use clustr_be.Payments.Types.{User}
use clustr_be.Payments.Store.{Db, Result, ok, err, Action, atomic}
use clustr_be.Payments.Ledger.{IsValid, AreSolvent, total_balance, total_available}
use clustr_be.Payments.Moves.{Effect, Transfers}
use clustr_be.Payments.ClusterWallet.{add_manual_credit, transfer_from_wallet}
use clustr_be.Payments.Bills.{process_payment}
use clustr_be.Payments.Conservation.{
  process_payment-Transfers, add_manual_credit-Transfers, transfer_from_wallet-Transfers,
}

-- A call that returns has kept the wallets' identifiers distinct and has added `x` to the sum of
-- all balances and to the sum of all available balances; one that raises leaves the whole state
-- as it was.
abbrev pub Settles : {A : Type 0} → Db → ℤ → Result A × Db → Type 0
Settles db x (ok _, db') =
    IsValid db'
    × (total_balance db' ≡ total_balance db +ℤ x)
    × (total_available db' ≡ total_available db +ℤ x)
Settles db x (err _, db') = db' ≡ db

module _ {A : Type 0} where
  Settles-of_Effect :
      (r : Result A × Db) (db : Db) (x : ℤ)
      → Effect db x (atomic (λ _. r) db)
      → Settles db x (atomic (λ _. r) db)
  unfolding atomic
  Settles-of_Effect (ok a, db') db x h = (h.valid, h.money, h.free)
  Settles-of_Effect (err e, db') db x h = refl

  Settles-atomic :
      (m : Action A) (db : Db) (x : ℤ) → Transfers (atomic m) db x → Settles db x (atomic m db)
  unfolding atomic
  Settles-atomic m db x t = Settles-of_Effect (m db) db x t.effect

  solvent_of_Effect :
      (r : Result A × Db) (db : Db) (x : ℤ)
      → AreSolvent db.wallets
      → Effect db x (atomic (λ _. r) db)
      → AreSolvent (atomic (λ _. r) db).1.wallets
  unfolding atomic
  solvent_of_Effect (ok a, db') db x s h = h.solvent s
  solvent_of_Effect (err e, db') db x s h = s

  solvent_atomic :
      (m : Action A) (db : Db) (x : ℤ)
      → AreSolvent db.wallets
      → Transfers (atomic m) db x
      → AreSolvent (atomic m db).1.wallets
  unfolding atomic
  solvent_atomic m db x s t = solvent_of_Effect (m db) db x s t.effect

-- Where the identifiers of the wallets are distinct and below the next one, a payment of a bill
-- from a wallet that returns keeps them so, and keeps the sum of all balances and the sum of all
-- available balances; a payment that raises leaves the whole state as it was.
pub process_payment-Settles :
    (now bill wallet : ℕ) (amount : Option ℤ) (u : User) (key : Option ℕ) (db : Db)
    → IsValid db
    → Settles db (pos 0) (process_payment now bill wallet amount u key db)
unfolding process_payment
process_payment-Settles now bill wallet amount u key db v =
    Settles-atomic _ db (pos 0) (process_payment-Transfers now bill wallet amount u key db v)

-- Where the identifiers of the wallets are distinct and below the next one, a manual credit of a
-- cluster's wallet that returns adds its amount to the sum of all balances
-- and to the sum of all available balances, and keeps the identifiers of the wallets distinct; one
-- that raises leaves the whole state as it was.
pub add_manual_credit-Settles :
    (now c : ℕ) (x : ℤ) (by_user : Option ℕ) (db : Db)
    → IsValid db
    → Settles db x (add_manual_credit now (some c) x by_user db)
unfolding add_manual_credit
add_manual_credit-Settles now c x by_user db v =
    Settles-atomic _ db x (add_manual_credit-Transfers now c x by_user db v)

-- Where the identifiers of the wallets are distinct and below the next one, a transfer out of a
-- cluster's wallet that returns takes its amount from the sum of all balances
-- and from the sum of all available balances, and keeps the identifiers of the wallets distinct;
-- one that raises leaves the whole state as it was.
pub transfer_from_wallet-Settles :
    (now c : ℕ) (x : ℤ) (by_user : Option ℕ) (db : Db)
    → IsValid db
    → Settles db (pos 0 -ℤ x) (transfer_from_wallet now (some c) x by_user db)
unfolding transfer_from_wallet
transfer_from_wallet-Settles now c x by_user db v =
    Settles-atomic _ db (pos 0 -ℤ x) (transfer_from_wallet-Transfers now c x by_user db v)

-- Where every wallet has an available balance of zero or more that its balance covers, and the
-- identifiers are distinct, that is still so after a payment of a bill, a manual credit and a
-- transfer, on every outcome.
pub wallets-AreSolvent :
    (now bill wallet c : ℕ) (amount : Option ℤ) (x : ℤ) (u : User) (key by_user : Option ℕ)
    (db : Db)
    → IsValid db
    → AreSolvent db.wallets
    → AreSolvent (process_payment now bill wallet amount u key db).1.wallets
      × AreSolvent (add_manual_credit now (some c) x by_user db).1.wallets
      × AreSolvent (transfer_from_wallet now (some c) x by_user db).1.wallets
unfolding process_payment add_manual_credit transfer_from_wallet
wallets-AreSolvent now bill wallet c amount x u key by_user db v s = (
  solvent_atomic _ db (pos 0) s (process_payment-Transfers now bill wallet amount u key db v),
  solvent_atomic _ db x s (add_manual_credit-Transfers now c x by_user db v),
  solvent_atomic _ db (pos 0 -ℤ x) s (transfer_from_wallet-Transfers now c x by_user db v),
)
