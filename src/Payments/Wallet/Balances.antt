-- ===== src/Payments/Wallet/Balances.antt =====
-- What the wallet methods do to the two balances.
use clustr_be.Base.{ℕ, ◌≡◌, refl, true, false, Bool-cases, inl, inr}
use clustr_be.Base.Int.{ℤ, pos, ◌+ℤ◌, ◌-ℤ◌, ◌≤ℤ◌, leb_ℤ, int_laws}
use clustr_be.Payments.Types.{Wallet}
use clustr_be.Payments.Ledger.{IsSolvent}
use clustr_be.Payments.Moves.{Adds}
use clustr_be.Payments.Wallet.{debit, credit}

-- A credit or a debit that goes through keeps the wallet solvent.
credited_solvent :
    (x : ℤ) (w : Wallet)
    → leb_ℤ x (pos 0) ≡ false
    → IsSolvent w
    → (pos 0 ≤ℤ w.available_balance +ℤ x) × (w.available_balance +ℤ x ≤ℤ w.balance +ℤ x)
credited_solvent x w h p = (grind int_laws, grind int_laws)

debited_solvent :
    (x : ℤ) (w : Wallet)
    → leb_ℤ x w.available_balance ≡ true
    → IsSolvent w
    → (pos 0 ≤ℤ w.available_balance -ℤ x) × (w.available_balance -ℤ x ≤ℤ w.balance -ℤ x)
debited_solvent x w h p = (grind int_laws, grind int_laws)

pub credit-Adds : (now : ℕ) (x : ℤ) (w : Wallet) → Adds x w (credit now x w)
unfolding credit
credit-Adds now x w = elim (Bool-cases (leb_ℤ x (pos 0))) [
  | inl e ↦ rw (e, Adds) tt
  | inr e ↦ rw (e, Adds) (refl, refl, refl, credited_solvent x w e)
]

sub_as_add : (a x : ℤ) → a -ℤ x ≡ a +ℤ (pos 0 -ℤ x)
sub_as_add a x = omega int_laws

pub debit-Adds : (now : ℕ) (x : ℤ) (w : Wallet) → Adds (pos 0 -ℤ x) w (debit now x w)
unfolding debit
debit-Adds now x w = elim (Bool-cases (leb_ℤ x (pos 0))) [
  | inl e ↦ rw (e, Adds) tt
  | inr e ↦ elim (Bool-cases (leb_ℤ x w.available_balance)) [
    | inl k ↦
        rw (e, k, Adds)
          (refl, sub_as_add w.balance x, sub_as_add w.available_balance x, debited_solvent x w k)
    | inr k ↦ rw (e, k, Adds) tt
  ]
]
