-- ===== src/Payments/Creation/Tests.antt =====
-- An estate with one resident, and the theorems on new bills at it.
use mathlib.Core.Option
use clustr_be.Base.{ℕ, ◌≡◌, refl, true, false, none, some, List, [], ◌∷◌, find_first, update_first}
use clustr_be.Base.Int.{pos}
use clustr_be.Payments.Types.{Wallet, User, BillStatus, active}
use clustr_be.Payments.Store.{Db, Result, ok, bill_is, wallet_is, ◌>>=◌, ◌>>◌}
use clustr_be.Payments.Wallet.{has_sufficient_balance}
use clustr_be.Payments.Bill.{status}
use clustr_be.Payments.Billing.{acknowledge}
use clustr_be.Payments.Bills.{process_payment}
use clustr_be.Payments.Outcome.{put_in, take_out}
use clustr_be.Payments.Creation.{
  new_bill, create_user_specific, create_cluster_wide, insert_bill,
  send_cluster_wide_bill_notification,
}
use clustr_be.Payments.Creation.Life.{create_user_specific-status}
use clustr_be.Payments.Creation.Chunks.{sent_to, create_cluster_wide-sent_to}

abbrev alice : User
alice = record { id = 5 }

abbrev wallet_of : ℕ → ℕ → Wallet
wallet_of id user_id = record {
  id = id;
  cluster = 1;
  user_id = user_id;
  balance = pos 900;
  available_balance = pos 900;
  currency = "NGN";
  status = active;
  last_transaction_at = none;
}

abbrev estate : Db
estate = record {
  wallets = wallet_of 10 5 ∷ wallet_of 11 1 ∷ [];
  transactions = [];
  bills = [];
  disputes = [];
  users = alice ∷ [];
  outbox = [];
  next_id = 100;
}

abbrev members : ℕ → List User → Result (List ℕ)
members _ _ = ok (5 ∷ 6 ∷ 7 ∷ [])

enough : has_sufficient_balance (wallet_of 10 5) (pos 700) ≡ true
unfolding has_sufficient_balance
enough = refl

told : sent_to 6 (create_cluster_wide members 1 (pos 700) 80 false estate).1.outbox ≡ 1
unfolding create_cluster_wide insert_bill send_cluster_wide_bill_notification ◌>>=◌ ◌>>◌
told = refl

create_user_specific-status_example :
    let (made, db₁) = create_user_specific 1 5 (pos 700) 80 false estate in
    let (taken, db₂) = acknowledge alice 100 db₁ in
    let (txn, db₃) = process_payment 50 100 10 none alice (some 77) db₂ in
    (made ≡ ok 100)
    × (taken ≡ ok true)
    × (txn ≡ ok 101)
    × (db₃.wallets
        ≡ update_first
            (wallet_is 11)
            (λ _. put_in 50 (pos 700) (wallet_of 11 1))
            (update_first
              (wallet_is 10)
              (λ _. take_out 50 (pos 700) (wallet_of 10 5))
              estate.wallets))
    × (Option.map (status 90 db₃) (find_first (bill_is 100) db₃.bills) ≡ some BillStatus.paid)
create_user_specific-status_example =
    create_user_specific-status 50 90 1 alice (wallet_of 10 5) (wallet_of 11 1) (pos 700) 80 false
      (some 77) estate refl refl refl refl enough refl refl refl

create_cluster_wide-sent_to_example :
    let (r, db₁) = create_cluster_wide members 1 (pos 700) 80 false estate in
    (r ≡ ok 100)
    × (db₁.bills ≡ record (new_bill 1 (pos 700) 80 false) { id = 100 } ∷ [])
    × (sent_to 6 db₁.outbox ≡ 1)
create_cluster_wide-sent_to_example =
    create_cluster_wide-sent_to members 1 (pos 700) 80 false 6 estate
