-- ===== src/Payments/Creation/Chunks.antt =====
-- The notices of a bill of the whole cluster, in chunks.
use clustr_be.Base.{
  ℕ, zero, suc, ◌+◌, ◌≤◌, ◌≡◌, refl, List, [], ◌∷◌, length, arith, ◌==◌, if◌then◌else◌, Bool, ◌⊎◌,
  inl, inr,
}
use clustr_be.Base.Int.{ℤ}
use clustr_be.Payments.Types.{User}
use clustr_be.Payments.Store.{bill_created, Error, Db, Notice, Result, ok, err, ◌>>=◌, ◌>>◌}
use clustr_be.Payments.Creation.{
  split_at, chunk, notify_all, insert_bill, new_bill, send_cluster_wide_bill_notification,
  create_cluster_wide,
}

abbrev count : ℕ → List ℕ → ℕ
count i [] = 0
count i (x ∷ xs) = let rest = count i xs in if i == x then suc rest else rest

abbrev count_all : ℕ → List (List ℕ) → ℕ
count_all i [] = 0
count_all i (c ∷ cs) = count i c + count_all i cs

-- How many notices there are for someone.
abbrev pub sent_to : ℕ → List Notice → ℕ
sent_to i [] = 0
sent_to i (n ∷ ns) = count i n.recipients + sent_to i ns

count-split_at :
    (i n : ℕ) (xs : List ℕ) → count i (split_at n xs).0 + count i (split_at n xs).1 ≡ count i xs
count-split_at i n [] = refl
count-split_at i zero (x ∷ xs) = omega arith
count-split_at i (suc n) (x ∷ xs) = ground (arith, count-split_at i n xs)

split_at-shrinks : (n : ℕ) (xs : List ℕ) → length (split_at n xs).1 ≤ length xs
split_at-shrinks n [] = omega arith
split_at-shrinks zero (x ∷ xs) = omega arith
split_at-shrinks (suc n) (x ∷ xs) = ground (arith, split_at-shrinks n xs)

-- As many chunks as there are members are enough: nobody is left out or told twice.
chunk-enough :
    (i n fuel : ℕ) (xs : List ℕ)
    → length xs ≤ fuel
    → count_all i (chunk fuel (suc n) xs) ≡ count i xs
chunk-enough i n zero [] h = refl
chunk-enough i n zero (x ∷ xs) h = absurd (omega arith)
chunk-enough i n (suc fuel) [] h = refl
chunk-enough i n (suc fuel) (x ∷ xs) h =
    let rest = (split_at n xs).1 in
    ground (
      arith,
      split_at-shrinks n xs,
      count-split_at i n xs,
      chunk-enough i n fuel rest (omega (arith, split_at-shrinks n xs)),
    )

notify_all-sent_to :
    (i : ℕ) (cs : List (List ℕ)) (db : Db)
    → sent_to i (notify_all cs db).1.outbox ≡ count_all i cs + sent_to i db.outbox
unfolding ◌>>=◌ ◌>>◌
notify_all-sent_to i [] db = omega arith
notify_all-sent_to i (c ∷ cs) db = ground (
  arith,
  notify_all-sent_to i cs
      (record db { outbox = record { event_name = bill_created; recipients = c } ∷ db.outbox }),
)

notify_all-is_ok : (cs : List (List ℕ)) (db : Db) → (notify_all cs db).0 ≡ ok tt
unfolding ◌>>=◌ ◌>>◌
notify_all-is_ok [] db = refl
notify_all-is_ok (c ∷ cs) db =
    notify_all-is_ok cs
      (record db { outbox = record { event_name = bill_created; recipients = c } ∷ db.outbox })

notify_all_bills : (cs : List (List ℕ)) (db : Db) → (notify_all cs db).1.bills ≡ db.bills
unfolding ◌>>=◌ ◌>>◌
notify_all_bills [] db = refl
notify_all_bills (c ∷ cs) db =
    notify_all_bills cs
      (record db { outbox = record { event_name = bill_created; recipients = c } ∷ db.outbox })

Result-cases : (r : Result (List ℕ)) → ((us : List ℕ) × r ≡ ok us) ⊎ ((e : Error) × r ≡ err e)
Result-cases (ok us) = inl (us, refl)
Result-cases (err e) = inr (e, refl)

-- Where Django answers the query for the members of a cluster, a bill of the whole cluster is told
-- to each of them once, whatever their number, and where the query raises, to nobody; in both cases
-- the bill is made.
pub create_cluster_wide-sent_to :
    (members : ℕ → List User → Result (List ℕ)) (cluster : ℕ) (amount : ℤ) (due : ℕ) (allow : Bool)
    (i : ℕ) (db : Db)
    → let (r, db₁) = create_cluster_wide members cluster amount due allow db in
      (r ≡ ok db.next_id)
      × (db₁.bills ≡ record (new_bill cluster amount due allow) { id = db.next_id } ∷ db.bills)
      × (sent_to i db₁.outbox
          ≡ (elim (members cluster db.users) [ ok us ↦ count i us | err _ ↦ 0 ])
            + sent_to i db.outbox)
unfolding create_cluster_wide insert_bill send_cluster_wide_bill_notification ◌>>=◌ ◌>>◌
create_cluster_wide-sent_to members cluster amount due allow i db =
    let b = record (new_bill cluster amount due allow) { id = db.next_id } in
    let db₁ = record db { bills = b ∷ db.bills; next_id = db.next_id + 1 } in
    elim (Result-cases (members cluster db.users)) [
      | inl (us, h) ↦
          let cs = chunk (length us) 100 us in
          ground (
            arith,
            notify_all-is_ok cs db₁,
            notify_all_bills cs db₁,
            notify_all-sent_to i cs db₁,
            chunk-enough i 99 (length us) us (omega arith),
          )
      | inr (e, h) ↦ ground arith
    ]
