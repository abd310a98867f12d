-- ===== src/Payments/Conservation.antt =====
-- The money that moves in cluster_wallet.py, `Bill.add_payment` and `bills.process_payment`.
use Prim.Native.String.{String}
use clustr_be.Base.{
  ℕ, ◌+◌, ◌≡◌, refl, Option, none, some, ◌∷◌, arith, find_first, Option-cases, inl, inr,
}
use clustr_be.Base.Int.{ℤ, pos, ◌-ℤ◌, int_laws}
use clustr_be.Payments.Types.{Wallet, Transaction, Bill, User}
use clustr_be.Payments.Store.{Db, Result, ok, err, Action, wallet_is, get_transaction, ◌>>=◌, ◌>>◌}
use clustr_be.Payments.Ledger.{IsValid, find_first-id, find_first-fresh, AreDistinct-mono}
use clustr_be.Payments.Moves.{
  Effect, Moves-same, KeepsWallets, KeepsWallets-of_eq, Transfers, Transfers->>=, Transfers->>,
  Transfers-atomic, Transfers-same, Transfers-keep, Transfers-gets, Transfers-or_raise,
  get_bill-KeepsWallets, get_transaction-KeepsWallets, save_transaction-KeepsWallets,
  Transfers-get_wallet, save_result-Transfers,
}
use clustr_be.Payments.Wallet.Balances.{credit-Adds, debit-Adds}
use clustr_be.Payments.Transaction.{insert_transaction}
use clustr_be.Payments.ClusterWallet.{
  add_manual_credit, transfer_from_wallet, new_wallet, is_cluster_wallet, get_or_create_wallet,
  record_credit, credit_cluster_from_bill_payment,
}
use clustr_be.Payments.Billing.{record_payment, pay_as, add_payment}
use clustr_be.Payments.Bills.{
  or_existing, payment_amount, send_payment_confirmation, settle, process_payment,
}

-- A wallet that an action returns is the row of its identifier.
abbrev Returns : Result Wallet × Db → Type 0
Returns (ok w, db) = find_first (wallet_is w.id) db.wallets ≡ some w
Returns (err _, db) = Unit

get_or_create_wallet_found :
    (c : ℕ) (cur : String) (db : Db) {w : Wallet}
    → find_first (is_cluster_wallet c) db.wallets ≡ some w
    → get_or_create_wallet c cur db ≡ (ok w, db)
unfolding get_or_create_wallet ◌>>=◌ ◌>>◌
get_or_create_wallet_found c cur db e = ground arith

get_or_create_wallet_missing :
    (c : ℕ) (cur : String) (db : Db)
    → find_first (is_cluster_wallet c) db.wallets ≡ none
    → get_or_create_wallet c cur db ≡ (
      ok (new_wallet c cur db.next_id),
      record db { next_id = db.next_id + 1; wallets = new_wallet c cur db.next_id ∷ db.wallets },
    )
unfolding get_or_create_wallet ◌>>=◌ ◌>>◌
get_or_create_wallet_missing c cur db e = ground arith

get_or_create_wallet-Effect :
    (c : ℕ) (cur : String) (db : Db)
    → IsValid db
    → Effect db (pos 0) (get_or_create_wallet c cur db) × Returns (get_or_create_wallet c cur db)
get_or_create_wallet-Effect c cur db v =
    elim (Option-cases (find_first (is_cluster_wallet c) db.wallets)) [
      | inl e ↦ rw (get_or_create_wallet_missing c cur db e) (
        record {
          valid = (
            omega arith,
            find_first-fresh _ _ db.wallets v refl,
            AreDistinct-mono _ _ db.wallets (omega arith) v,
          );
          money = omega int_laws;
          free = omega int_laws;
          solvent = λ p. ((omega arith, omega arith), p);
        },
        ground arith,
      )
      | inr (w, e) ↦
          rw (get_or_create_wallet_found c cur db e)
            (Moves-same db db v refl (omega arith), find_first-id _ _ w db.wallets v e)
    ]

insert_transaction-KeepsWallets :
    (t : Transaction) (db : Db) → KeepsWallets (insert_transaction t) db
unfolding insert_transaction ◌>>=◌ ◌>>◌
insert_transaction-KeepsWallets t db = ground arith

record_credit-KeepsWallets :
    (x : ℤ) (i : ℕ) (txn : Option ℕ) (db : Db) → KeepsWallets (record_credit x i txn) db
unfolding record_credit ◌>>=◌ get_transaction
record_credit-KeepsWallets x i none db = ground arith
record_credit-KeepsWallets x i (some t) db = ground arith

get_or_create_wallet-Transfers :
    (c : ℕ) (cur : String) (db : Db)
    → IsValid db
    → Transfers (get_or_create_wallet c cur) db (pos 0)
get_or_create_wallet-Transfers c cur db v = record {
  effect = (get_or_create_wallet-Effect c cur db v).0;
}

get_or_create_wallet-Returns :
    (c : ℕ) (cur : String) (db : Db) (w : Wallet) (db' : Db)
    → IsValid db
    → get_or_create_wallet c cur db ≡ (ok w, db')
    → find_first (wallet_is w.id) db'.wallets ≡ some w
get_or_create_wallet-Returns c cur db w db' v q =
    rw q at ((get_or_create_wallet-Effect c cur db v).1)

-- A successful credit of a cluster adds the amount to the money in the wallets.
pub credit_cluster-Transfers :
    (now c : ℕ) (x : ℤ) (b : Bill) (txn : Option ℕ) (db : Db)
    → IsValid db
    → Transfers (credit_cluster_from_bill_payment now (some c) x b txn) db x
unfolding credit_cluster_from_bill_payment
credit_cluster-Transfers now c x b txn db v = Transfers-atomic x (
    Transfers-keep x v (KeepsWallets-of_eq _ _ refl) λ c' db₀ e₀ v₀.
      Transfers->>= (pos 0) x x (omega int_laws)
        (get_or_create_wallet-Transfers c' b.currency db₀ v₀)
        λ w db₁ q₁ m₁.
          Transfers-keep x m₁.valid (insert_transaction-KeepsWallets _ db₁) λ i db₂ e₂ v₂.
            save_result-Transfers x (pos 0) x (omega int_laws) w _ (credit-Adds now x w) db₂ v₂
              (rw e₂ (get_or_create_wallet-Returns c' b.currency db₀ w db₁ v₀ q₁))
              λ db₃ v₃. Transfers->> _ _ (
                Transfers-keep (pos 0) v₃ (record_credit-KeepsWallets x i txn db₃)
                  λ _ db₄ e₄ v₄. Transfers-same db₄ v₄ (KeepsWallets-of_eq _ _ refl)))

record_payment-KeepsWallets :
    (now : ℕ) (x : ℤ) (b : Bill) (u : User) (txn : ℕ) (db : Db)
    → KeepsWallets (record_payment now x b u txn) db
unfolding record_payment ◌>>=◌ ◌>>◌ get_transaction
record_payment-KeepsWallets now x b u txn db = ground arith

pay-Transfers :
    (now : ℕ) (x : ℤ) (b : Bill) (w : Wallet) (txn i : ℕ) (user : Option User) (db : Db)
    → IsValid db
    → find_first (wallet_is i) db.wallets ≡ some w
    → Transfers (pay_as now x b w txn user) db (pos 0)
unfolding pay_as
pay-Transfers now x b w txn i none db v e = Transfers-same db v (KeepsWallets-of_eq _ db refl)
pay-Transfers now x b w txn i (some u) db v e =
    save_result-Transfers (pos 0 -ℤ x) x (pos 0) (omega int_laws) w _ (debit-Adds now x w) db v
      (find_first-id _ _ w db.wallets v e)
      λ db₁ v₁. Transfers->> _ _ (
        Transfers-keep x v₁ (record_payment-KeepsWallets now x b u txn db₁) λ _ db₂ e₂ v₂.
          Transfers->> _ _ (
            Transfers->>= x (pos 0) x (omega int_laws)
              (credit_cluster-Transfers now b.cluster x b (some txn) db₂ v₂)
              λ _ db₃ q₃ m₃. Transfers-same db₃ m₃.valid (KeepsWallets-of_eq _ db₃ refl)))

-- Paying a bill moves money between wallets, and makes or destroys none.
pub add_payment-Transfers :
    (now : ℕ) (x : ℤ) (bill txn : ℕ) (db : Db)
    → IsValid db
    → Transfers (add_payment now x bill txn) db (pos 0)
unfolding add_payment
add_payment-Transfers now x bill txn db v =
    Transfers-keep (pos 0) v (get_bill-KeepsWallets bill db) λ b db₁ e₁ v₁.
      Transfers-keep (pos 0) v₁ (get_transaction-KeepsWallets txn db₁) λ t db₂ e₂ v₂.
        Transfers-get_wallet (pos 0) t.wallet db₂ λ w e.
          Transfers-keep (pos 0) v₂ (KeepsWallets-of_eq _ db₂ refl)
            λ user db₃ e₃ v₃. pay-Transfers now x b w txn t.wallet user db₃ v₃ (rw e₃ e)

-- The parts of `process_payment` that leave the wallets alone.
payment_amount-KeepsWallets :
    (now : ℕ) (b : Bill) (w : Wallet) (a : Option ℤ) (u : User) (db : Db)
    → KeepsWallets (payment_amount now b w a u) db
unfolding payment_amount ◌>>=◌ ◌>>◌
payment_amount-KeepsWallets now b w a u db = ground arith

send_payment_confirmation-KeepsWallets :
    (i : ℕ) (db : Db) → KeepsWallets (send_payment_confirmation i) db
unfolding send_payment_confirmation ◌>>=◌ ◌>>◌
send_payment_confirmation-KeepsWallets i db = ground arith

settle-Transfers :
    (now bill : ℕ) (w : Wallet) (x : ℤ) (u : User) (key : Option ℕ) (db : Db)
    → IsValid db
    → Transfers (settle now bill w x u key) db (pos 0)
unfolding settle
settle-Transfers now bill w x u key db v =
    Transfers-keep (pos 0) v (insert_transaction-KeepsWallets _ db) λ i db₁ e₁ v₁.
      Transfers->> _ _ (
        Transfers->>= (pos 0) (pos 0) (pos 0) (omega int_laws)
          (add_payment-Transfers now x bill i db₁ v₁)
          λ _ db₂ q₂ m₂.
            Transfers-keep (pos 0) m₂.valid (get_transaction-KeepsWallets i db₂) λ t db₃ e₃ v₃.
              Transfers->> _ _ (
                Transfers-keep (pos 0) v₃ (save_transaction-KeepsWallets _ db₃) λ _ db₄ e₄ v₄.
                  Transfers->> _ _ (
                    Transfers-keep (pos 0) v₄ (send_payment_confirmation-KeepsWallets u.id db₄)
                      λ _ db₅ e₅ v₅. Transfers-same db₅ v₅ (KeepsWallets-of_eq _ db₅ refl))))

or_existing-Transfers :
    (o : Option Transaction) (m : Action ℕ) (db : Db)
    → IsValid db
    → Transfers m db (pos 0)
    → Transfers (or_existing o m) db (pos 0)
unfolding or_existing
or_existing-Transfers none m db v h = h
or_existing-Transfers (some t) m db v h = Transfers-same db v (KeepsWallets-of_eq _ db refl)

pub process_payment-Transfers :
    (now bill wallet : ℕ) (amount : Option ℤ) (u : User) (key : Option ℕ) (db : Db)
    → IsValid db
    → Transfers (process_payment now bill wallet amount u key) db (pos 0)
unfolding process_payment
process_payment-Transfers now bill wallet amount u key db v = Transfers-atomic (pos 0) (
    Transfers-keep (pos 0) v (get_bill-KeepsWallets bill db) λ b db₁ e₁ v₁.
      Transfers-get_wallet (pos 0) wallet db₁ λ w e.
        Transfers-keep (pos 0) v₁ (payment_amount-KeepsWallets now b w amount u db₁)
          λ pay db₂ e₂ v₂.
            Transfers-keep (pos 0) v₂ (KeepsWallets-of_eq _ db₂ refl) λ existing db₃ e₃ v₃.
              or_existing-Transfers existing (settle now bill w pay u key) db₃ v₃
                (settle-Transfers now bill w pay u key db₃ v₃))

pub add_manual_credit-Transfers :
    (now c : ℕ) (x : ℤ) (by_user : Option ℕ) (db : Db)
    → IsValid db
    → Transfers (add_manual_credit now (some c) x by_user) db x
unfolding add_manual_credit
add_manual_credit-Transfers now c x by_user db v = Transfers-atomic x (
    Transfers-keep x v (KeepsWallets-of_eq _ db refl) λ c' db₀ e₀ v₀.
      Transfers->>= (pos 0) x x (omega int_laws) (get_or_create_wallet-Transfers c' "NGN" db₀ v₀)
        λ w db₁ q₁ m₁.
          Transfers-keep x m₁.valid (insert_transaction-KeepsWallets _ db₁) λ i db₂ e₂ v₂.
            save_result-Transfers x (pos 0) x (omega int_laws) w _ (credit-Adds now x w) db₂ v₂
              (rw e₂ (get_or_create_wallet-Returns c' "NGN" db₀ w db₁ v₀ q₁))
              λ db₃ v₃. Transfers-same db₃ v₃ (KeepsWallets-of_eq _ db₃ refl))

pub transfer_from_wallet-Transfers :
    (now c : ℕ) (x : ℤ) (by_user : Option ℕ) (db : Db)
    → IsValid db
    → Transfers (transfer_from_wallet now (some c) x by_user) db (pos 0 -ℤ x)
unfolding transfer_from_wallet
transfer_from_wallet-Transfers now c x by_user db v =
    let out = pos 0 -ℤ x in
    Transfers-atomic out (
      Transfers-keep out v (KeepsWallets-of_eq _ db refl) λ c' db₀ e₀ v₀.
        Transfers-gets _ _ db₀ out (
          Transfers-or_raise _ _ _ db₀ out λ w q. Transfers->> _ _ (
            Transfers-keep out v₀ (KeepsWallets-of_eq _ db₀ refl) λ _ db₁ e₁ v₁.
              Transfers-keep out v₁ (insert_transaction-KeepsWallets _ db₁) λ i db₂ e₂ v₂.
                save_result-Transfers out (pos 0) out (omega int_laws) w _ (debit-Adds now x w) db₂
                  v₂ (rw (e₂, e₁) (find_first-id _ _ w db₀.wallets v₀ q))
                  λ db₃ v₃.
                    Transfers-keep (pos 0) v₃ (get_transaction-KeepsWallets i db₃) λ t db₄ e₄ v₄.
                      Transfers->> _ _ (
                        Transfers-keep (pos 0) v₄ (save_transaction-KeepsWallets _ db₄)
                          λ _ db₅ e₅ v₅. Transfers-same db₅ v₅ (KeepsWallets-of_eq _ db₅ refl)))))
