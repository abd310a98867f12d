-- ===== src/Payments/Outcome.antt =====
-- What a payment that goes through does, written down in full, without the steps of the code.
use clustr_be.Base.{
  ℕ, ◌+◌, ◌<◌, ◌≡◌, refl, true, false, Option, none, some, List, [], ◌∷◌, arith, find_first,
  update_first, any, if◌then◌else◌,
}
use clustr_be.Base.Int.{ℤ, pos, ◌+ℤ◌, ◌-ℤ◌, leb_ℤ}
use clustr_be.Base.Lists.{any_none}
use clustr_be.Payments.Types.{
  Wallet, Transaction, Bill, User, is_cluster_managed, completed, pending, bill_payment,
}
use clustr_be.Payments.Store.{
  payment_successful, Db, ok, atomic, wallet_is, transaction_is, bill_is, user_is, get_wallet,
  get_transaction, get_bill, ◌>>=◌, ◌>>◌,
}
use clustr_be.Payments.Wallet.{debit, credit, has_sufficient_balance}
use clustr_be.Payments.Transaction.{no_metadata, same_key, insert_transaction}
use clustr_be.Payments.ClusterWallet.{
  is_cluster_wallet, get_or_create_wallet, deposit_of, record_credit,
  credit_cluster_from_bill_payment,
}
use clustr_be.Payments.Bill.{can_be_paid_by, is_acknowledged_by}
use clustr_be.Payments.Billing.{record_payment, pay_as, add_payment}
use clustr_be.Payments.Bills.{
  or_existing, is_duplicate, payment_amount, send_payment_confirmation, settle, process_payment,
}

-- A wallet after `x` went in, or out, at the time `now`.
abbrev pub put_in : ℕ → ℤ → Wallet → Wallet
put_in now x w = record w {
  balance = w.balance +ℤ x;
  available_balance = w.available_balance +ℤ x;
  last_transaction_at = some now;
}

abbrev pub take_out : ℕ → ℤ → Wallet → Wallet
take_out now x w = record w {
  balance = w.balance -ℤ x;
  available_balance = w.available_balance -ℤ x;
  last_transaction_at = some now;
}

-- The deposit that records a bill's payment in the cluster's wallet.
abbrev pub credit_row : ℕ → ℕ → ℤ → Wallet → Bill → Option ℕ → Transaction
credit_row id now x w b txn =
    record (deposit_of now x w (some b.cluster) (record no_metadata {
      bill_id = some b.id;
      source = some "bill_payment";
      original_transaction_id = txn;
    })) { id = id }

-- The credit of a cluster that has a wallet, for a transaction that stands.
credit_cluster_ok :
    (now : ℕ) (x : ℤ) (b : Bill) (txn : ℕ) (w : Wallet) (t : Transaction) (db : Db)
    → find_first (is_cluster_wallet b.cluster) db.wallets ≡ some w
    → find_first (transaction_is txn) db.transactions ≡ some t
    → leb_ℤ x (pos 0) ≡ false
    → t.id ≡ txn
    → txn < db.next_id
    → credit_cluster_from_bill_payment now (some b.cluster) x b (some txn) db ≡ (
      ok db.next_id,
      record db {
        wallets = update_first (wallet_is w.id) (λ _. put_in now x w) db.wallets;
        transactions =
            credit_row db.next_id now x w b (some txn)
            ∷ update_first
                (transaction_is txn)
                (λ _. record t {
                  metadata = record t.metadata { cluster_credit = some (x, db.next_id) };
                })
                db.transactions;
        next_id = db.next_id + 1;
      },
    )
unfolding credit_cluster_from_bill_payment get_or_create_wallet insert_transaction credit
    record_credit get_transaction atomic ◌>>=◌ ◌>>◌
credit_cluster_ok now x b txn w t db hw ht hx i lt =
    ground (arith, any_none (same_key none) db.transactions (λ s. refl))

-- The bill after a payment: a bill of the whole cluster is left as it is.
abbrev pub paid_bills : ℕ → ℤ → Bill → ℕ → List Bill → List Bill
paid_bills now x b txn bills =
    if is_cluster_managed b.category
    then bills
    else update_first (bill_is b.id)
        (λ _. record b {
          paid_amount = b.paid_amount +ℤ x;
          paid_at = if leb_ℤ b.amount (b.paid_amount +ℤ x) then some now else b.paid_at;
          payment_transaction = some txn;
        })
        bills

-- The state after the credit of the cluster.
abbrev credited : ℕ → ℤ → Bill → Wallet → Transaction → Db → Db
credited now x b cw t db = record db {
  wallets = update_first (wallet_is cw.id) (λ _. put_in now x cw) db.wallets;
  transactions =
      credit_row db.next_id now x cw b (some t.id)
      ∷ update_first (transaction_is t.id)
          (λ _. record t { metadata = record t.metadata { cluster_credit = some (x, db.next_id) } })
          db.transactions;
  next_id = db.next_id + 1;
}

pay_as_ok :
    (now : ℕ) (x : ℤ) (b : Bill) (w cw : Wallet) (u : User) (t : Transaction)
    (old : List Transaction) (db : Db)
    → db.transactions ≡ t ∷ old
    → t.type ≡ bill_payment
    → t.id < db.next_id
    → leb_ℤ x (pos 0) ≡ false
    → has_sufficient_balance w x ≡ true
    → can_be_paid_by now b u ≡ true
    → is_acknowledged_by b u ≡ true
    → find_first
        (is_cluster_wallet b.cluster)
        (update_first (wallet_is w.id) (λ _. take_out now x w) db.wallets)
      ≡ some cw
    → pay_as now x b w t.id (some u) db ≡ (
      ok tt,
      credited now x b cw t (record db {
        wallets = update_first (wallet_is w.id) (λ _. take_out now x w) db.wallets;
        bills = paid_bills now x b t.id db.bills;
      }),
    )
unfolding pay_as record_payment get_transaction debit has_sufficient_balance ◌>>=◌ ◌>>◌
pay_as_ok now x b w cw u t old db et ty lt hx hs hp ha hc = ground (
  arith,
  credit_cluster_ok now x b t.id cw t
      (record db {
        wallets = update_first (wallet_is w.id) (λ _. take_out now x w) db.wallets;
        bills = paid_bills now x b t.id db.bills;
      })
      hc,
)

-- The row of the payment, when it is settled and credited.
abbrev pub payment_row : ℕ → ℕ → ℤ → ℕ → Wallet → User → Option ℕ → Transaction
payment_row now id x bill w u key = record {
  id = id;
  cluster = w.cluster;
  wallet = w.id;
  bill = none;
  type = bill_payment;
  amount = x;
  currency = w.currency;
  status = completed;
  provider_response = none;
  metadata = record no_metadata {
    bill_id = some bill;
    payment_method = some "wallet";
    cluster_credit = some (x, id + 1);
  };
  idempotency_key = key;
  processed_at = some now;
  failed_at = none;
  failure_reason = none;
  created_by = some u.id;
}

-- The state after a payment of `x` from the wallet `w` for the bill `b` to the wallet `cw`.
abbrev pub settled : ℕ → ℤ → Bill → Wallet → Wallet → User → Option ℕ → Db → Db
settled now x b w cw u key db = record db {
  wallets =
      update_first (wallet_is cw.id) (λ _. put_in now x cw)
        (update_first (wallet_is w.id) (λ _. take_out now x w) db.wallets);
  transactions =
      credit_row (db.next_id + 1) now x cw b (some db.next_id)
      ∷ payment_row now db.next_id x b.id w u key
      ∷ db.transactions;
  bills = paid_bills now x b db.next_id db.bills;
  outbox = record { event_name = payment_successful; recipients = u.id ∷ [] } ∷ db.outbox;
  next_id = db.next_id + 1 + 1;
}

settle_ok :
    (now : ℕ) (x : ℤ) (b : Bill) (w cw : Wallet) (u : User) (key : Option ℕ) (db : Db)
    → any (same_key key) db.transactions ≡ false
    → find_first (bill_is b.id) db.bills ≡ some b
    → find_first (wallet_is w.id) db.wallets ≡ some w
    → find_first (user_is u.id) db.users ≡ some u
    → w.user_id ≡ u.id
    → leb_ℤ x (pos 0) ≡ false
    → has_sufficient_balance w x ≡ true
    → can_be_paid_by now b u ≡ true
    → is_acknowledged_by b u ≡ true
    → find_first
        (is_cluster_wallet b.cluster)
        (update_first (wallet_is w.id) (λ _. take_out now x w) db.wallets)
      ≡ some cw
    → settle now b.id w x u key db ≡ (ok db.next_id, settled now x b w cw u key db)
unfolding settle insert_transaction add_payment get_transaction get_bill get_wallet
    send_payment_confirmation ◌>>=◌ ◌>>◌
settle_ok now x b w cw u key db hk hb hw hu eu hx hs hp ha hc =
    let t : Transaction = record (payment_row now db.next_id x b.id w u key) {
      status = pending;
      metadata = record no_metadata { bill_id = some b.id; payment_method = some "wallet" };
      processed_at = none;
    } in
    ground (
      arith,
      pay_as_ok now x b w cw u t db.transactions
          (record db { transactions = t ∷ db.transactions; next_id = db.next_id + 1 }) refl refl
          (omega arith) hx hs hp ha hc,
    )

pub unused_key :
    (key : Option ℕ) (wallet : ℕ) (ts : List Transaction)
    → any (same_key key) ts ≡ false
    → find_first (is_duplicate key wallet) ts ≡ none
unused_key key wallet [] h = refl
unused_key key wallet (t ∷ ts) h = ground (arith, unused_key key wallet ts)

-- What the guards have checked when they let an amount through.
pub payment_amount-eq-ok :
    (now : ℕ) (b : Bill) (w : Wallet) (amount : Option ℤ) (u : User) (x : ℤ) (db : Db)
    → payment_amount now b w amount u db ≡ (ok x, db)
    → (can_be_paid_by now b u ≡ true)
      × (leb_ℤ x (pos 0) ≡ false)
      × (has_sufficient_balance w x ≡ true)
unfolding payment_amount ◌>>=◌ ◌>>◌
payment_amount-eq-ok now b w amount u x db h = ground arith

-- A payment whose guards let the amount `x` through, under a key that no transaction has, by the
-- known user of the wallet, who has acknowledged the bill, to a cluster that has a wallet
-- already, returns a new transaction and leaves exactly the state `settled`: `x` is out of the
-- payer's wallet and in the cluster's, the bill of one user counts it as paid and a bill of the
-- cluster is left as it was, the payment and the deposit are recorded as completed, and the
-- payer is notified.
pub process_payment-settled :
    (now : ℕ) (amount : Option ℤ) (x : ℤ) (b : Bill) (w cw : Wallet) (u : User) (key : Option ℕ)
    (db : Db)
    → find_first (bill_is b.id) db.bills ≡ some b
    → find_first (wallet_is w.id) db.wallets ≡ some w
    → find_first (user_is u.id) db.users ≡ some u
    → w.user_id ≡ u.id
    → is_acknowledged_by b u ≡ true
    → payment_amount now b w amount u db ≡ (ok x, db)
    → any (same_key key) db.transactions ≡ false
    → find_first
        (is_cluster_wallet b.cluster)
        (update_first (wallet_is w.id) (λ _. take_out now x w) db.wallets)
      ≡ some cw
    → process_payment now b.id w.id amount u key db ≡ (ok db.next_id, settled now x b w cw u key db)
unfolding process_payment get_bill get_wallet or_existing atomic ◌>>=◌
process_payment-settled now amount x b w cw u key db hb hw hu eu ha hx hk hc =
    let (hp, hpos, hs) = payment_amount-eq-ok now b w amount u x db hx in
    ground (
      arith,
      unused_key key w.id db.transactions,
      settle_ok now x b w cw u key db hk hb hw hu eu hpos hs hp ha hc,
    )
