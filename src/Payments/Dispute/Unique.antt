-- ===== src/Payments/Dispute/Unique.antt =====
-- One active dispute for each user and bill, under every operation on disputes.
use Prim.Native.String.{String}
use clustr_be.Base.{
  ℕ, ◌+◌, ◌≤◌, ◌<◌, ◌≡◌, refl, Bool, false, ◌&&◌, Option, none, some, List, [], ◌∷◌, arith, ◌==◌,
  not, any, find_first, update_first, Option-cases, inl, inr,
}
use clustr_be.Payments.Types.{
  BillDispute, User, is_active_status, resolved, rejected, withdrawn, under_review,
}
use clustr_be.Payments.Store.{Db, ◌>>=◌, ◌>>◌, get_dispute, get_bill, dispute_is, bill_is}
use clustr_be.Payments.Billing.{is_active_dispute_by, dispute}
use clustr_be.Payments.Dispute.{is_rival, save_dispute, resolve, reject, withdraw, set_under_review}

-- Identifiers are distinct and below `n`, and no user has two active disputes over one bill.
abbrev pub AreUnique : ℕ → List BillDispute → Type 0
AreUnique n [] = Unit
AreUnique n (d ∷ ds) =
    (d.id < n)
    × (find_first (dispute_is d.id) ds ≡ none)
    × ((is_active_status d.status && any (is_active_dispute_by d.bill d.disputed_by) ds) ≡ false)
    × AreUnique n ds

AreUnique-suc : (n : ℕ) (ds : List BillDispute) → AreUnique n ds → AreUnique (n + 1) ds
AreUnique-suc n [] h = tt
AreUnique-suc n (d ∷ ds) h = (omega arith, h.1, h.2, AreUnique-suc n ds h.3)

dispute_is_fresh :
    (n m : ℕ) (ds : List BillDispute) → AreUnique n ds → n ≤ m → find_first (dispute_is m) ds ≡ none
dispute_is_fresh n m [] h le = refl
dispute_is_fresh n m (d ∷ ds) h le = ground (arith, dispute_is_fresh n m ds h.3 le)

no_rival :
    (i b u : ℕ) (ds : List BillDispute)
    → any (λ e. not (e.id == i) && is_active_dispute_by b u e) ds ≡ false
    → find_first (dispute_is i) ds ≡ none
    → any (is_active_dispute_by b u) ds ≡ false
no_rival i b u [] h k = refl
no_rival i b u (d ∷ ds) h k = ground (arith, no_rival i b u ds)

update_none :
    (p : BillDispute → Bool) (i : ℕ) (d : BillDispute) (ds : List BillDispute)
    → any p ds ≡ false
    → p d ≡ false
    → any p (update_first (dispute_is i) (λ _. d) ds) ≡ false
update_none p i d [] h k = refl
update_none p i d (e ∷ ds) h k = ground (arith, update_none p i d ds)

update_fresh :
    (p : BillDispute → Bool) (i : ℕ) (d : BillDispute) (ds : List BillDispute)
    → find_first p ds ≡ none
    → p d ≡ false
    → find_first p (update_first (dispute_is i) (λ _. d) ds) ≡ none
update_fresh p i d [] h k = refl
update_fresh p i d (e ∷ ds) h k = ground (arith, update_fresh p i d ds)

any_of_find :
    (p : BillDispute → Bool) (ds : List BillDispute) → find_first p ds ≡ none → any p ds ≡ false
any_of_find p [] h = refl
any_of_find p (d ∷ ds) h = ground (arith, any_of_find p ds)

AreUnique-update :
    (n : ℕ) (d : BillDispute) (ds : List BillDispute)
    → AreUnique n ds
    → (is_active_status d.status && any (is_rival d) ds) ≡ false
    → AreUnique n (update_first (dispute_is d.id) (λ _. d) ds)
AreUnique-update n d [] h r = tt
AreUnique-update n d (e ∷ ds) h r = ground (
  arith,
  AreUnique-update n d ds h.3,
  no_rival d.id d.bill d.disputed_by ds,
  update_fresh (dispute_is e.id) d.id d ds,
  update_none (is_active_dispute_by e.bill e.disputed_by) d.id d ds,
)

-- The disputes of a state are unique.
abbrev pub IsUnique : Db → Type 0
IsUnique db = AreUnique db.next_id db.disputes

pub save_dispute-IsUnique :
    (d : BillDispute) (db : Db) → IsUnique db → IsUnique (save_dispute d db).1
unfolding save_dispute ◌>>=◌ ◌>>◌
save_dispute-IsUnique d db h = ground (arith, AreUnique-update db.next_id d db.disputes h)

-- The requests on disputes, and a run of them in any order. A request that raises has written
-- nothing.
pub data Request : Type 0 where
  raise_dispute : User → String → ℕ → Request
  resolve_dispute reject_dispute : ℕ → ℕ → String → ℕ → Request
  withdraw_dispute : ℕ → ℕ → Request
  review_dispute : Option String → ℕ → Request

pub serve : Request → Db → Db
serve (raise_dispute u reason i) db = (dispute u reason i db).1
serve (resolve_dispute now who notes i) db = (resolve now who notes i db).1
serve (reject_dispute now who notes i) db = (reject now who notes i db).1
serve (withdraw_dispute now i) db = (withdraw now i db).1
serve (review_dispute notes i) db = (set_under_review notes i db).1

pub serve_all : List Request → Db → Db
serve_all [] db = db
serve_all (r ∷ rs) db = serve_all rs (serve r db)

dispute-IsUnique :
    (u : User) (reason : String) (i : ℕ) (db : Db)
    → IsUnique db
    → IsUnique (dispute u reason i db).1
unfolding dispute get_bill ◌>>=◌
dispute-IsUnique u reason i db h = elim (Option-cases (find_first (bill_is i) db.bills)) [
  | inl e ↦ ground arith
  | inr (b, e) ↦ ground (
    arith,
    AreUnique-suc db.next_id db.disputes h,
    dispute_is_fresh db.next_id db.next_id db.disputes h,
    any_of_find (is_active_dispute_by b.id u.id) db.disputes,
  )
]

resolve-IsUnique :
    (now who : ℕ) (notes : String) (i : ℕ) (db : Db)
    → IsUnique db
    → IsUnique (resolve now who notes i db).1
unfolding resolve get_dispute ◌>>=◌
resolve-IsUnique now who notes i db h =
    elim (Option-cases (find_first (dispute_is i) db.disputes)) [
      | inl e ↦ ground arith
      | inr (d, e) ↦ ground (
        arith,
        save_dispute-IsUnique
            (record d {
              status = resolved;
              resolved_by = some who;
              resolved_at = some now;
              resolution_notes = some notes;
            })
            db h,
      )
    ]

reject-IsUnique :
    (now who : ℕ) (notes : String) (i : ℕ) (db : Db)
    → IsUnique db
    → IsUnique (reject now who notes i db).1
unfolding reject get_dispute ◌>>=◌
reject-IsUnique now who notes i db h = elim (Option-cases (find_first (dispute_is i) db.disputes)) [
  | inl e ↦ ground arith
  | inr (d, e) ↦ ground (
    arith,
    save_dispute-IsUnique
        (record d {
          status = rejected;
          resolved_by = some who;
          resolved_at = some now;
          resolution_notes = some notes;
        })
        db h,
  )
]

withdraw-IsUnique : (now i : ℕ) (db : Db) → IsUnique db → IsUnique (withdraw now i db).1
unfolding withdraw get_dispute ◌>>=◌ ◌>>◌
withdraw-IsUnique now i db h = elim (Option-cases (find_first (dispute_is i) db.disputes)) [
  | inl e ↦ ground arith
  | inr (d, e) ↦
      ground (
        arith,
        save_dispute-IsUnique (record d { status = withdrawn; resolved_at = some now }) db h,
      )
]

set_under_review-IsUnique :
    (notes : Option String) (i : ℕ) (db : Db)
    → IsUnique db
    → IsUnique (set_under_review notes i db).1
unfolding set_under_review get_dispute ◌>>=◌
set_under_review-IsUnique none i db h =
    elim (Option-cases (find_first (dispute_is i) db.disputes)) [
      | inl e ↦ ground arith
      | inr (d, e) ↦ ground (arith, save_dispute-IsUnique (record d { status = under_review }) db h)
    ]
set_under_review-IsUnique (some n) i db h =
    elim (Option-cases (find_first (dispute_is i) db.disputes)) [
      | inl e ↦ ground arith
      | inr (d, e) ↦ ground (
        arith,
        save_dispute-IsUnique (record d { status = under_review; admin_notes = some n }) db h,
      )
    ]

serve-IsUnique : (r : Request) (db : Db) → IsUnique db → IsUnique (serve r db)
unfolding serve
serve-IsUnique (raise_dispute u reason i) db h = dispute-IsUnique u reason i db h
serve-IsUnique (resolve_dispute now who notes i) db h = resolve-IsUnique now who notes i db h
serve-IsUnique (reject_dispute now who notes i) db h = reject-IsUnique now who notes i db h
serve-IsUnique (withdraw_dispute now i) db h = withdraw-IsUnique now i db h
serve-IsUnique (review_dispute notes i) db h = set_under_review-IsUnique notes i db h

-- Whatever requests on disputes are served, in whatever order, from a state where identifiers are
-- distinct and no user has two active disputes over one bill, the state stays such.
pub serve_all-IsUnique : (rs : List Request) (db : Db) → IsUnique db → IsUnique (serve_all rs db)
unfolding serve_all
serve_all-IsUnique [] db h = h
serve_all-IsUnique (r ∷ rs) db h = serve_all-IsUnique rs (serve r db) (serve-IsUnique r db h)
