-- ===== src/Payments/Failures/Counts.antt =====
-- The retries that a transaction's row has counted, and which operations change the count.
use Prim.Native.String.{String}
use clustr_be.Base.{
  ℕ, ◌+◌, ◌≤◌, ◌≡◌, refl, sym, ap, ◌∙◌, Bool, true, false, ◌&&◌, not, Option, none, some, List, [],
  ◌∷◌, arith, leb, find_first, update_first, Option-cases, Bool-cases, inl, inr,
}
use clustr_be.Payments.Types.{Transaction, completed, failed, is_unsettled}
use clustr_be.Payments.Store.{
  Db, Action, Result, does_not_exist, get_wallet, ok, err, transaction_is, get_transaction,
  save_transaction, pure, ◌>>=◌, ◌>>◌,
}
use clustr_be.Payments.Store.Binds.{bind_ok, bind_err, then_ok, then_err, Ends-cases}
use clustr_be.Payments.Transaction.{mark_as_completed, mark_as_failed, fail_row, release}
use clustr_be.Payments.Webhook.{PaymentProvider}
use clustr_be.Payments.Failures.{
  is_failed, count_or_zero, retry_row, failure_result, reset, handle_transaction_failure,
  retry_failed_transaction,
}

abbrev pub granted : Result Bool → ℕ
granted (ok true) = 1
granted (ok false) = 0
granted (err e) = 0

abbrev pub count_in : Option Transaction → ℕ
count_in none = 0
count_in (some t) = count_or_zero t.metadata.retry_count

-- The count of the transaction's row.
abbrev pub count_of : ℕ → Db → ℕ
count_of i db = count_in (find_first (transaction_is i) db.transactions)

pub found_id :
    (i : ℕ) (t : Transaction) (ts : List Transaction)
    → find_first (transaction_is i) ts ≡ some t
    → t.id ≡ i
found_id i t [] h = cc
found_id i t (u ∷ ts) h = ground (arith, found_id i t ts)

pub saved_found :
    (i : ℕ) (t t' : Transaction) (ts : List Transaction)
    → find_first (transaction_is i) ts ≡ some t
    → t'.id ≡ i
    → find_first (transaction_is i) (update_first (transaction_is t'.id) (λ _. t') ts) ≡ some t'
saved_found i t t' [] h e = cc
saved_found i t t' (u ∷ ts) h e = ground (arith, saved_found i t t' ts)

-- Saving the row that was found.
pub save_count :
    (i : ℕ) (t t' : Transaction) (db : Db)
    → find_first (transaction_is i) db.transactions ≡ some t
    → t'.id ≡ t.id
    → count_of i (save_transaction t' db).1 ≡ count_in (some t')
save_count i t t' db h e =
    ap count_in (saved_found i t t' db.transactions h (e ∙ found_id i t db.transactions h))

module _ (i : ℕ) (db : Db) (t : Transaction) where
  get_found :
      find_first (transaction_is i) db.transactions ≡ some t → get_transaction i db ≡ (ok t, db)
  unfolding get_transaction
  get_found h = rw h refl

get_missing :
    (i : ℕ) (db : Db)
    → find_first (transaction_is i) db.transactions ≡ none
    → get_transaction i db ≡ (err does_not_exist, db)
unfolding get_transaction
get_missing i db h = rw h refl

retry_row_count :
    (i : ℕ) (t : Transaction) (db : Db)
    → find_first (transaction_is i) db.transactions ≡ some t
    → count_of i db ≤ 3
    → let (r, db') = retry_row t db in
      (granted r + count_of i db ≤ count_of i db') × (count_of i db' ≤ 3)
unfolding retry_row ◌>>◌ ◌>>=◌
retry_row_count i t db e h =
    let c = ap count_in e in
    elim (Bool-cases (is_failed t.status && not (leb 3 (count_or_zero t.metadata.retry_count)))) [
      | inl y ↦ let saved = save_count i t (reset t) db e refl in rw (y) (ground arith)
      | inr n ↦ rw n (omega arith)
    ]

pub retry_count :
    (i : ℕ) (db : Db)
    → count_of i db ≤ 3
    → let (r, db') = retry_failed_transaction i db in
      (granted r + count_of i db ≤ count_of i db') × (count_of i db' ≤ 3)
unfolding retry_failed_transaction
retry_count i db h = elim (Option-cases (find_first (transaction_is i) db.transactions)) [
  | inl e ↦
      rw (bind_err (get_transaction i) retry_row db db does_not_exist (get_missing i db e))
        (omega arith)
  | inr (t, e) ↦
      rw (bind_ok (get_transaction i) retry_row db db t (get_found i db t e))
        (retry_row_count i t db e h)
]

release_transactions : (t : Transaction) (db : Db) → (release t db).1.transactions ≡ db.transactions
unfolding release get_wallet ◌>>=◌
release_transactions t db = ground arith

-- An action that leaves the transactions, and then the row with another count-free content.
save_after_count :
    (i : ℕ) (m : Action (Unit {0})) (t t' : Transaction) (db : Db)
    → find_first (transaction_is i) db.transactions ≡ some t
    → t'.id ≡ t.id
    → count_in (some t') ≡ count_in (some t)
    → (m db).1.transactions ≡ db.transactions
    → count_of i ((m >> save_transaction t') db).1 ≡ count_of i db
save_after_count i m t t' db e et ec same = elim (Ends-cases (m db)) [
  | inl (a, db', h) ↦
      let kept : db'.transactions ≡ db.transactions = ap (λ r. r.1.transactions) (sym h) ∙ same in
      rw (then_ok m (save_transaction t') db db' a h) (
        save_count i t t' db' (ap (find_first (transaction_is i)) kept ∙ e) et
        ∙ ec
        ∙ ap count_in (sym e))
  | inr (x, db', h) ↦ rw (then_err m (save_transaction t') db db' x h) (
      ap (λ ts. count_in (find_first (transaction_is i) ts))
        (ap (λ r. r.1.transactions) (sym h) ∙ same))
]

pub fail_row_count :
    (now i : ℕ) (m : String) (t : Transaction) (db : Db)
    → find_first (transaction_is i) db.transactions ≡ some t
    → count_of i (fail_row now (some m) t db).1 ≡ count_of i db
unfolding fail_row
fail_row_count now i m t db e = elim (Bool-cases (is_unsettled t.status)) [
  | inl y ↦ rw y (
      save_after_count i (release t) t
        (record t { status = failed; failed_at = some now; failure_reason = some m }) db e refl refl
        (release_transactions t db))
  | inr n ↦ rw n refl
]

mark_as_failed_count :
    (now i : ℕ) (m : String) (db : Db)
    → count_of i (mark_as_failed now (some m) i db).1 ≡ count_of i db
unfolding mark_as_failed
mark_as_failed_count now i m db =
    elim (Option-cases (find_first (transaction_is i) db.transactions)) [
      | inl e ↦
          rw (bind_err (get_transaction i) (fail_row now (some m)) db db _ (get_missing i db e))
            refl
      | inr (t, e) ↦
          rw (bind_ok (get_transaction i) (fail_row now (some m)) db db t (get_found i db t e))
            (fail_row_count now i m t db e)
    ]

pub failure_count :
    (now i : ℕ) (p : PaymentProvider) (m : String) (db : Db)
    → count_of i (handle_transaction_failure now p m i db).1 ≡ count_of i db
unfolding handle_transaction_failure
failure_count now i p m db =
    let act = mark_as_failed now (some m) i in
    let same = mark_as_failed_count now i m db in
    elim (Ends-cases (act db)) [
      | inl (a, db', h) ↦
          rw (then_ok act (pure (failure_result m p i)) db db' a h)
            (ap (λ r. count_of i r.1) (sym h) ∙ same)
      | inr (x, db', h) ↦
          rw (then_err act (pure (failure_result m p i)) db db' x h)
            (ap (λ r. count_of i r.1) (sym h) ∙ same)
    ]

pub completion_count :
    (now i : ℕ) (extra : String) (db : Db)
    → count_of i (mark_as_completed now extra i db).1 ≡ count_of i db
unfolding mark_as_completed
completion_count now i extra db =
    let done : Transaction → Transaction = λ t. record t {
      status = completed;
      provider_response = some extra;
      processed_at = some now;
    } in
    let k : Transaction → Action (Unit {0}) = λ t. save_transaction (done t) in
    elim (Option-cases (find_first (transaction_is i) db.transactions)) [
      | inl e ↦
          ap (λ r. count_of i r.1)
            (bind_err (get_transaction i) k db db does_not_exist (get_missing i db e))
      | inr (t, e) ↦
          ap (λ r. count_of i r.1) (bind_ok (get_transaction i) k db db t (get_found i db t e))
          ∙ save_count i t (done t) db e refl
          ∙ ap count_in (sym e)
    ]

-- A constant result afterwards.
pub pure_count :
    {A B : Type 0} (i : ℕ) (m : Action A) (b : B) (db : Db)
    → count_of i ((m >> pure b) db).1 ≡ count_of i (m db).1
pure_count i m b db = elim (Ends-cases (m db)) [
  | inl (a, db', h) ↦ rw (then_ok m (pure b) db db' a h) (ap (λ r. count_of i r.1) (sym h))
  | inr (x, db', h) ↦ rw (then_err m (pure b) db db' x h) (ap (λ r. count_of i r.1) (sym h))
]

-- Another content without a change of the count.
pub save_same_count :
    (i : ℕ) (t t' : Transaction) (db : Db)
    → find_first (transaction_is i) db.transactions ≡ some t
    → t'.id ≡ t.id
    → count_in (some t') ≡ count_in (some t)
    → count_of i (save_transaction t' db).1 ≡ count_of i db
save_same_count i t t' db e et ec = save_count i t t' db e et ∙ ec ∙ ap count_in (sym e)

pub granted-le : (r : Result Bool) → granted r ≤ 1
granted-le (ok true) = omega arith
granted-le (ok false) = omega arith
granted-le (err e) = omega arith

pub granted_refused : {A : Type 0} (m : Action A) (db : Db) → granted ((m >> pure false) db).0 ≡ 0
granted_refused m db = elim (Ends-cases (m db)) [
  | inl (a, db', h) ↦ ap (λ r. granted r.0) (then_ok m (pure false) db db' a h)
  | inr (x, db', h) ↦ ap (λ r. granted r.0) (then_err m (pure false) db db' x h)
]
