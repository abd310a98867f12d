-- ===== src/Payments/Wallet/Roundtrip.antt =====
-- What is put into a wallet and taken out again.
use clustr_be.Base.{ℕ, ◌≡◌, true, some, arith}
use clustr_be.Base.Int.{ℤ, pos, ◌+ℤ◌, ◌-ℤ◌, ◌≤ℤ◌, leb_ℤ, int_laws}
use clustr_be.Payments.Types.{Wallet}
use clustr_be.Payments.Store.{ok}
use clustr_be.Payments.Wallet.{debit, credit}

add_sub : (a x : ℤ) → a +ℤ x -ℤ x ≡ a
add_sub a x = omega int_laws

pub sub_add : (a x : ℤ) → a -ℤ x +ℤ x ≡ a
sub_add a x = omega int_laws

covered : (a x : ℤ) → pos 0 ≤ℤ a → leb_ℤ x (a +ℤ x) ≡ true
covered a x h = grind int_laws

-- What is credited to a wallet whose available balance is not negative can be debited again, and
-- leaves both balances as they were.
pub debit-credit :
    (now later : ℕ) (x : ℤ) (w : Wallet) {w' : Wallet}
    → pos 0 ≤ℤ w.available_balance
    → credit now x w ≡ ok w'
    → debit later x w' ≡ ok (record w { last_transaction_at = some later })
unfolding credit debit
debit-credit now later x w {w'} h e =
    ground
      (arith, covered w.available_balance x h, add_sub w.balance x, add_sub w.available_balance x)
