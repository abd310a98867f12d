-- ===== src/Payments/Replay.antt =====
-- Payments that are repeated, what the guards let through, and payments that no user owns.
use clustr_be.Base.{
  ℕ, ◌≡◌, refl, inl, inr, true, false, Option, none, some, arith, find_first, update_first, any,
  Option-cases,
}
use clustr_be.Base.Int.{ℤ, pos, ◌≤ℤ◌, ◌-ℤ◌}
use clustr_be.Base.Lists.{find_first-passes}
use clustr_be.Payments.Types.{completed, Wallet, Transaction, Bill, User, user_managed}
use clustr_be.Payments.Store.{
  Db, Result, ok, err, atomic, wallet_is, bill_is, user_is, transaction_is, get_wallet,
  get_transaction, get_bill, ◌>>=◌, ◌>>◌,
}
use clustr_be.Payments.Wallet.{has_sufficient_balance}
use mathlib.Core.Option
use clustr_be.Payments.Transaction.{insert_transaction, same_key}
use clustr_be.Payments.ClusterWallet.{is_cluster_wallet}
use clustr_be.Payments.Bill.{is_acknowledged_by, get_user_payment_amount}
use clustr_be.Payments.Bills.{
  send_payment_confirmation, or_existing, is_given, is_duplicate, remaining_for, payment_amount,
  settle, process_payment,
}
use clustr_be.Payments.Billing.{pay_as, add_payment}
use clustr_be.Payments.Outcome.{unused_key, payment_row, take_out, settled, process_payment-settled}

-- What came back, if it is not an exception, is `a`.
abbrev pub IsOkOnly : {A : Type 0} → A → Result A → Type 0
IsOkOnly a (ok b) = b ≡ a
IsOkOnly a (err _) = Unit

payment_amount_keeps :
    (now : ℕ) (b : Bill) (w : Wallet) (amount : Option ℤ) (u : User) (db : Db)
    → (payment_amount now b w amount u db).1 ≡ db
unfolding payment_amount ◌>>=◌ ◌>>◌
payment_amount_keeps now b w amount u db = ground arith

-- A payment under a key that a transaction of the same wallet has already changes nothing, and
-- what it returns, if a guard does not make it raise, is that transaction.
pub process_payment_replay :
    (now bill wallet : ℕ) (amount : Option ℤ) (u : User) (key : Option ℕ) (t : Transaction)
    (db : Db)
    → find_first (is_duplicate key wallet) db.transactions ≡ some t
    → ((process_payment now bill wallet amount u key db).1 ≡ db)
      × IsOkOnly t.id (process_payment now bill wallet amount u key db).0
unfolding process_payment get_bill get_wallet or_existing atomic ◌>>=◌
process_payment_replay now bill wallet amount u key t db h =
    elim (Option-cases (find_first (bill_is bill) db.bills)) [
      | inl e ↦ ground arith
      | inr (b, eb) ↦ elim (Option-cases (find_first (wallet_is wallet) db.wallets)) [
        | inl e ↦ ground arith
        | inr (w, ew) ↦ ground (
          arith,
          payment_amount_keeps now b w amount u db,
          find_first-passes (wallet_is wallet) w db.wallets ew,
        )
      ]
    ]

-- In a state where a payment under a given key has settled, its row is the duplicate that a later
-- call finds.
settled_duplicate :
    (now : ℕ) (x : ℤ) (b : Bill) (w cw : Wallet) (u : User) (key : Option ℕ) (db : Db)
    → is_given key ≡ true
    → (t : Transaction) × (t.id ≡ db.next_id)
      × (find_first (is_duplicate key w.id) (settled now x b w cw u key db).transactions ≡ some t)
settled_duplicate now x b w cw u none db g = cc
settled_duplicate now x b w cw u (some k) db g =
    (payment_row now db.next_id x b.id w u (some k), refl, ground arith)

-- Where the guards let an amount through, the known user of the wallet pays and has acknowledged the
-- bill, the cluster has a wallet, and no transaction has the given key, which is not empty, the
-- payment settles, and settles once: the same call again, at any later time and for any amount,
-- changes nothing, and what it returns, if it does not raise, is the first payment.
pub process_payment_twice :
    (now later : ℕ) (amount again : Option ℤ) (x : ℤ) (b : Bill) (w cw : Wallet) (u : User)
    (key : Option ℕ) (db : Db)
    → find_first (bill_is b.id) db.bills ≡ some b
    → find_first (wallet_is w.id) db.wallets ≡ some w
    → find_first (user_is u.id) db.users ≡ some u
    → w.user_id ≡ u.id
    → is_acknowledged_by b u ≡ true
    → payment_amount now b w amount u db ≡ (ok x, db)
    → any (same_key key) db.transactions ≡ false
    → is_given key ≡ true
    → find_first
        (is_cluster_wallet b.cluster)
        (update_first (wallet_is w.id) (λ _. take_out now x w) db.wallets)
      ≡ some cw
    → let (first, db₁) = process_payment now b.id w.id amount u key db in
      let (second, db₂) = process_payment later b.id w.id again u key db₁ in
      (first ≡ ok db.next_id) × (db₂ ≡ db₁) × IsOkOnly db.next_id second
process_payment_twice now later amount again x b w cw u key db hb hw hu eu ha hx hk g hc =
    let e = process_payment-settled now amount x b w cw u key db hb hw hu eu ha hx hk hc in
    let (t, i, q) = settled_duplicate now x b w cw u key db g in
    let (same, only) =
      process_payment_replay later b.id w.id again u key t (settled now x b w cw u key db) q in
    rw e (refl, same, rw i at only)

-- The amount that the guards of a payment let through is an amount for a bill of the category
-- `USER_MANAGED`, is positive, and is at most what is left unpaid of the bill and at most the
-- available balance of the wallet. So no payment of a bill of the category `CLUSTER_MANAGED` gets
-- through.
pub payment_amount_bounds :
    (now : ℕ) (b : Bill) (w : Wallet) (amount : Option ℤ) (u : User) (x : ℤ) (db : Db)
    → payment_amount now b w amount u db ≡ (ok x, db)
    → (b.category ≡ user_managed)
      × (pos 1 ≤ℤ x)
      × (x ≤ℤ b.amount -ℤ b.paid_amount)
      × (x ≤ℤ w.available_balance)
unfolding payment_amount has_sufficient_balance remaining_for get_user_payment_amount ◌>>=◌ ◌>>◌
payment_amount_bounds now b w amount u x db h =
    (ground arith, ground arith, ground arith, ground arith)

-- A payment from a wallet whose user is not known, under a key that no transaction has, by anyone
-- whom the guards let pay from it, returns a completed transaction, and takes nothing from any
-- wallet and pays nothing off.
pub process_payment_unowned :
    (now : ℕ) (amount : Option ℤ) (x : ℤ) (b : Bill) (w : Wallet) (u : User) (key : Option ℕ)
    (db : Db)
    → find_first (bill_is b.id) db.bills ≡ some b
    → find_first (wallet_is w.id) db.wallets ≡ some w
    → find_first (user_is w.user_id) db.users ≡ none
    → payment_amount now b w amount u db ≡ (ok x, db)
    → any (same_key key) db.transactions ≡ false
    → let (r, db') = process_payment now b.id w.id amount u key db in
      (r ≡ ok db.next_id)
      × (db'.wallets ≡ db.wallets)
      × (db'.bills ≡ db.bills)
      × (Option.map (λ t. t.status) (find_first (transaction_is db.next_id) db'.transactions)
          ≡ some completed)
unfolding process_payment settle add_payment pay_as insert_transaction send_payment_confirmation
    get_bill get_wallet get_transaction or_existing atomic ◌>>=◌ ◌>>◌
process_payment_unowned now amount x b w u key db hb hw hu hx hk =
    ground (arith, unused_key key w.id db.transactions)
