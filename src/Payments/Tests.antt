-- ===== src/Payments/Tests.antt =====
-- A small estate, runs of the code on it, and the theorems at it.
use clustr_be.Base.{ℕ, ◌≡◌, refl, true, none, some, List, [], ◌∷◌, arith, find_first}
use clustr_be.Base.Int.{pos, ◌+ℤ◌, ◌-ℤ◌, ◌≤ℤ◌}
use mathlib.Core.Option
use clustr_be.Payments.Types.{
  Wallet, Transaction, Bill, User, active, cluster_managed, user_managed, withdrawal, completed,
  deposit,
}
use clustr_be.Payments.Store.{
  Db, ok, err, not_payable, wallet_is, transaction_is, get_wallet, get_bill, get_transaction,
  atomic, ◌>>=◌, ◌>>◌,
}
use clustr_be.Payments.Ledger.{IsValid, AreSolvent}
use clustr_be.Payments.Wallet.{has_sufficient_balance, credit, debit}
use clustr_be.Payments.Transaction.{create_pending_transaction, mark_as_failed, insert_transaction}
use clustr_be.Payments.Transaction.Freeze.{mark_as_failed-create_pending}
use clustr_be.Payments.ClusterWallet.{
  add_manual_credit, transfer_from_wallet, get_or_create_wallet, record_credit,
  credit_cluster_from_bill_payment,
}
use clustr_be.Payments.Bill.{can_be_acknowledged_by, is_acknowledged_by, can_be_paid_by}
use clustr_be.Payments.Billing.{acknowledge, record_payment, pay_as, add_payment}
use clustr_be.Payments.Bills.{
  remaining_for, payment_amount, or_existing, send_payment_confirmation, settle, process_payment,
}
use clustr_be.Payments.Outcome.{settled, process_payment-settled}
use clustr_be.Payments.Replay.{
  IsOkOnly, process_payment_twice, payment_amount_bounds, process_payment_unowned,
}
use clustr_be.Payments.Safety.{
  Settles, process_payment-Settles, add_manual_credit-Settles, transfer_from_wallet-Settles,
  wallets-AreSolvent,
}
use clustr_be.Payments.Dispute.Unique.{
  Request, raise_dispute, resolve_dispute, review_dispute, IsUnique, serve_all, serve_all-IsUnique,
}

abbrev alice : User
alice = record { id = 5 }

abbrev wallet_of : ℕ → ℕ → ℕ → ℕ → Wallet
wallet_of id user_id balance available = record {
  id = id;
  cluster = 1;
  user_id = user_id;
  balance = pos balance;
  available_balance = pos available;
  currency = "NGN";
  status = active;
  last_transaction_at = none;
}

abbrev alices : Wallet
alices = wallet_of 10 5 50000 40000

abbrev estates : Wallet
estates = wallet_of 11 1 900 900

-- The wallet of a user that is not there.
abbrev orphan : Wallet
orphan = wallet_of 12 9 70000 70000

abbrev water : Bill
water = record {
  id = 20;
  cluster = 1;
  user_id = some 5;
  category = user_managed;
  utility_provider = none;
  amount = pos 30000;
  currency = "NGN";
  acknowledged_by = 5 ∷ [];
  allow_payment_after_due = true;
  due_date = 1000;
  paid_amount = pos 10000;
  paid_at = none;
  payment_transaction = none;
}

abbrev security : Bill
security = record water { id = 21; user_id = none; category = cluster_managed; paid_amount = pos 0 }

abbrev internet : Bill
internet = record water { id = 22; acknowledged_by = [] }

abbrev estate : Db
estate = record {
  wallets = alices ∷ estates ∷ orphan ∷ [];
  transactions = [];
  bills = water ∷ security ∷ internet ∷ [];
  disputes = [];
  users = alice ∷ [];
  outbox = [];
  next_id = 100;
}

-- Nothing given as the amount pays all that remains of the bill.
water_amount : payment_amount 50 water alices none alice estate ≡ (ok (pos 20000), estate)
unfolding payment_amount ◌>>=◌ ◌>>◌ ◌-ℤ◌ can_be_paid_by remaining_for has_sufficient_balance
water_amount = refl

-- Nobody can pay a bill of the whole cluster.
security_amount :
    payment_amount 50 security alices (some (pos 25000)) alice estate ≡ (err not_payable, estate)
unfolding payment_amount ◌>>=◌ ◌>>◌ can_be_paid_by can_be_acknowledged_by
security_amount = refl

alice_acknowledged : is_acknowledged_by water alice ≡ true
unfolding is_acknowledged_by
alice_acknowledged = refl

-- A whole payment, run.
pay_water :
    let (r, db) = process_payment 50 20 10 none alice (some 77) estate in
    (r ≡ ok 100)
    × (Option.map (λ w. w.balance) (find_first (wallet_is 10) db.wallets) ≡ some (pos 30000))
    × (Option.map (λ w. w.balance) (find_first (wallet_is 11) db.wallets) ≡ some (pos 20900))
unfolding process_payment payment_amount settle or_existing insert_transaction add_payment pay_as
    record_payment credit_cluster_from_bill_payment get_or_create_wallet record_credit credit debit
    send_payment_confirmation get_wallet get_bill get_transaction atomic ◌>>=◌ ◌>>◌ ◌-ℤ◌ ◌+ℤ◌
    can_be_paid_by remaining_for
pay_water = (refl, refl, refl)

-- A payment above the available balance is refused.
pay_too_much : (process_payment 50 20 10 (some (pos 20001)) alice none estate).1 ≡ estate
unfolding process_payment payment_amount get_wallet get_bill atomic ◌>>=◌ ◌>>◌ ◌-ℤ◌ can_be_paid_by
    remaining_for
pay_too_much = refl

estate-IsValid : IsValid estate
estate-IsValid = ground arith

process_payment-Settles_example :
    Settles estate (pos 0) (process_payment 50 20 10 none alice (some 77) estate)
process_payment-Settles_example =
    process_payment-Settles 50 20 10 none alice (some 77) estate estate-IsValid

add_manual_credit-Settles_example :
    Settles estate (pos 300) (add_manual_credit 50 (some 1) (pos 300) none estate)
add_manual_credit-Settles_example =
    add_manual_credit-Settles 50 1 (pos 300) none estate estate-IsValid

transfer_from_wallet-Settles_example :
    Settles estate (pos 0 -ℤ pos 300) (transfer_from_wallet 50 (some 1) (pos 300) none estate)
transfer_from_wallet-Settles_example =
    transfer_from_wallet-Settles 50 1 (pos 300) none estate estate-IsValid

wallets-AreSolvent_example :
    AreSolvent (process_payment 50 20 10 none alice (some 77) estate).1.wallets
    × AreSolvent (add_manual_credit 50 (some 1) (pos 300) none estate).1.wallets
    × AreSolvent (transfer_from_wallet 50 (some 1) (pos 300) none estate).1.wallets
wallets-AreSolvent_example =
    wallets-AreSolvent 50 20 10 1 none (pos 300) alice (some 77) none estate estate-IsValid
      (ground arith)

process_payment-settled_example :
    process_payment 50 20 10 none alice (some 77) estate
    ≡ (ok 100, settled 50 (pos 20000) water alices estates alice (some 77) estate)
process_payment-settled_example =
    process_payment-settled 50 none (pos 20000) water alices estates alice (some 77) estate refl
      refl refl refl alice_acknowledged water_amount refl refl

process_payment_twice_example :
    let (first, db₁) = process_payment 50 20 10 none alice (some 77) estate in
    let (second, db₂) = process_payment 60 20 10 (some (pos 5)) alice (some 77) db₁ in
    (first ≡ ok 100) × (db₂ ≡ db₁) × IsOkOnly 100 second
process_payment_twice_example =
    process_payment_twice 50 60 none (some (pos 5)) (pos 20000) water alices estates alice (some 77)
      estate refl refl refl refl alice_acknowledged water_amount refl refl refl

-- The estate when a deposit into Alice's wallet has been made under the key 77.
abbrev keyed : Transaction
keyed = record {
  id = 90;
  cluster = 1;
  wallet = 10;
  bill = none;
  type = deposit;
  amount = pos 5;
  currency = "NGN";
  status = completed;
  provider_response = none;
  metadata = record {
    bill_id = none;
    payment_method = none;
    source = none;
    original_transaction_id = none;
    cluster_credit = none;
    retry_count = none;
    utility = none;
  };
  idempotency_key = some 77;
  processed_at = none;
  failed_at = none;
  failure_reason = none;
  created_by = none;
}

abbrev used : Db
used = record estate { transactions = keyed ∷ [] }

payment_amount_bounds_example :
    (water.category ≡ user_managed)
    × (pos 1 ≤ℤ pos 20000)
    × (pos 20000 ≤ℤ pos 30000 -ℤ pos 10000)
    × (pos 20000 ≤ℤ pos 40000)
payment_amount_bounds_example =
    payment_amount_bounds 50 water alices none alice (pos 20000) estate water_amount

orphan_amount : payment_amount 50 water orphan none alice estate ≡ (ok (pos 20000), estate)
unfolding payment_amount ◌>>=◌ ◌>>◌ ◌-ℤ◌ can_be_paid_by remaining_for has_sufficient_balance
orphan_amount = refl

process_payment_unowned_example :
    let (r, db) = process_payment 50 20 12 none alice none estate in
    (r ≡ ok 100)
    × (db.wallets ≡ estate.wallets)
    × (db.bills ≡ estate.bills)
    × (Option.map (λ t. t.status) (find_first (transaction_is 100) db.transactions)
        ≡ some completed)
process_payment_unowned_example =
    process_payment_unowned 50 none (pos 20000) water orphan alice none estate refl refl refl
      orphan_amount refl

mark_as_failed-create_pending_example :
    let (r, db₁) = create_pending_transaction 10 (pos 700) withdrawal true estate in
    let (r', db₂) = mark_as_failed 60 none 100 db₁ in
    (r ≡ ok 100) × (r' ≡ ok tt) × (db₂.wallets ≡ estate.wallets)
unfolding has_sufficient_balance
mark_as_failed-create_pending_example =
    mark_as_failed-create_pending 60 none (pos 700) withdrawal alices estate refl refl refl refl

acknowledge_internet : (acknowledge alice 22 estate).0 ≡ ok true
unfolding acknowledge get_bill ◌>>=◌ ◌>>◌ can_be_acknowledged_by is_acknowledged_by
acknowledge_internet = refl

-- Alice's wallet after a credit of 100.
abbrev richer : Wallet
richer = record alices {
  balance = pos 50100;
  available_balance = pos 40100;
  last_transaction_at = some 50;
}

credit-alices : credit 50 (pos 100) alices ≡ ok richer
unfolding credit ◌+ℤ◌
credit-alices = refl

abbrev requests : List Request
requests =
    raise_dispute alice "too much" 20
    ∷ resolve_dispute 50 1 "no" 100
    ∷ raise_dispute alice "still" 20
    ∷ review_dispute none 100
    ∷ []

serve_all-IsUnique_example : IsUnique (serve_all requests estate)
serve_all-IsUnique_example = serve_all-IsUnique requests estate tt
