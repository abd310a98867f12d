-- ===== src/Payments/Bill/Remaining.antt =====
-- What is left of a bill, and whether it is paid.
use clustr_be.Base.{◌≡◌, arith, if◌then◌else◌}
use clustr_be.Base.Int.{ℤ, pos, ◌≤ℤ◌, ◌-ℤ◌, int_laws, leb_ℤ, ltb_ℤ}
use clustr_be.Payments.Types.{Bill}
use clustr_be.Payments.Store.{Db}
use clustr_be.Payments.Bill.{get_total_paid, is_fully_paid, get_remaining_amount}

rest_sign : (a p : ℤ) → leb_ℤ a p ≡ leb_ℤ (if ltb_ℤ (pos 0) (a -ℤ p) then a -ℤ p else pos 0) (pos 0)
rest_sign a p = grind int_laws

rest_nonneg : (a p : ℤ) → pos 0 ≤ℤ (if ltb_ℤ (pos 0) (a -ℤ p) then a -ℤ p else pos 0)
rest_nonneg a p = grind int_laws

-- What remains of a bill is never negative, and it is zero exactly for a fully paid bill: the two
-- tests agree.
is_fully_paid-get_remaining_amount :
    (db : Db) (b : Bill)
    → (is_fully_paid db b ≡ leb_ℤ (get_remaining_amount db b) (pos 0))
      × (pos 0 ≤ℤ get_remaining_amount db b)
unfolding get_remaining_amount is_fully_paid get_total_paid
is_fully_paid-get_remaining_amount db b = (
  ground (arith, rest_sign b.amount (get_total_paid db b)),
  rest_nonneg b.amount (get_total_paid db b),
)
