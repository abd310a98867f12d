-- ===== src/Payments/Wallet.antt =====
-- The methods of `class Wallet`, core/common/models/payments/wallet.py. A method that mutates
-- the wallet returns the new row; `True` as the only result is left out.
pub mod Balances
pub mod Roundtrip
use clustr_be.Base.{ℕ, Bool, true, false, ◌&&◌, Option, some, not, if◌then◌else◌}
use clustr_be.Base.Int.{ℤ, pos, ◌+ℤ◌, ◌-ℤ◌, leb_ℤ}
use clustr_be.Payments.Types.{
  Wallet, TransactionType, deposit, refund, withdrawal, payment, transfer, bill_payment,
}
use clustr_be.Payments.Store.{Result, ok, err, invalid_amount, insufficient_balance}

unfoldable pub has_sufficient_balance : Wallet → ℤ → Bool
has_sufficient_balance w amount = leb_ℤ amount w.available_balance

-- The result says whether the amount was frozen.
unfoldable pub freeze_amount : ℤ → Wallet → Wallet × Bool
unfolding has_sufficient_balance
freeze_amount amount w =
    if has_sufficient_balance w amount
    then (record w { available_balance = w.available_balance -ℤ amount }, true)
    else (w, false)

unfoldable pub unfreeze_amount : ℤ → Wallet → Wallet
unfreeze_amount amount w = record w { available_balance = w.available_balance +ℤ amount }

unfoldable pub debit : ℕ → ℤ → Wallet → Result Wallet
unfolding has_sufficient_balance
debit now amount w =
    if leb_ℤ amount (pos 0)
    then err invalid_amount
    else if not (has_sufficient_balance w amount)
    then err insufficient_balance
    else ok (record w {
      balance = w.balance -ℤ amount;
      available_balance = w.available_balance -ℤ amount;
      last_transaction_at = some now;
    })

unfoldable pub credit : ℕ → ℤ → Wallet → Result Wallet
credit now amount w =
    if leb_ℤ amount (pos 0)
    then err invalid_amount
    else ok (record w {
      balance = w.balance +ℤ amount;
      available_balance = w.available_balance +ℤ amount;
      last_transaction_at = some now;
    })

-- The last branch is taken for TRANSFER alone: its inner test is never true there.
unfoldable pub update_balance : ℕ → ℤ → TransactionType → Wallet → Result Wallet
unfolding debit credit
update_balance now amount deposit w = credit now amount w
update_balance now amount refund w = credit now amount w
update_balance now amount withdrawal w = debit now amount w
update_balance now amount payment w = debit now amount w
update_balance now amount bill_payment w = debit now amount w
update_balance now amount transfer w = ok (record w {
  balance = w.balance -ℤ amount;
  available_balance = w.available_balance -ℤ amount;
  last_transaction_at = some now;
})
