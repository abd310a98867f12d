-- ===== src/Shifts/Served.antt =====
-- The shifts stay disjoint over every sequence of requests.
use clustr_be.Base.{
  ℕ, ◌+◌, Bool, true, false, Option, none, some, List, [], ◌∷◌, arith, find_first, keep,
}
use clustr_be.Payments.Store.{Result, ok, err, does_not_exist, validation_error}
use clustr_be.Shifts.{
  Shift, ShiftSwapRequest, Roster, ShiftStatus, shift_is, swap_is, clean, save, save_both, require,
  with_shift, clock_in, clock_out, mark_no_show, cancel, swap_shifts, with_swap, approve, reject,
  is_pending, no_show,
}
use clustr_be.Shifts.Calls
use clustr_be.Shifts.Calls.{
  check_conflicts, new_shift, insert, create, mark_all, is_missed, mark_missed_shifts,
}
use clustr_be.Shifts.Disjoint.{
  IsDisjoint, AreDisjoint-suc, shift_is_fresh, none-clashes, save-IsDisjoint,
}

-- A call that leaves disjoint shifts disjoint, also where it raises.
record Keeps {A : Type 0} (m : Roster → Result A × Roster) : Type 0 where
  keep_disjoint : (r : Roster) → IsDisjoint r → IsDisjoint (m r).1

save-Keeps : (s : Shift) → Keeps (save s)
save-Keeps s = record { keep_disjoint = λ r h. save-IsDisjoint s r h }

with_shift-Keeps :
    (i : ℕ) {f : Shift → Roster → Result (Unit {0}) × Roster}
    → ((s : Shift) → Keeps (f s))
    → Keeps (with_shift i f)
with_shift-Keeps i {f} k = record {
  keep_disjoint = λ r h. go r h (find_first (shift_is i) r.shifts);
}
  where
    go :
        (r : Roster)
        → IsDisjoint r
        → (o : Option Shift)
        → IsDisjoint
            (elim o as (λ _. Result (Unit {0}) × Roster) [
              | none ↦ (err does_not_exist, r)
              | some s ↦ f s r
            ]).1
    go r h none = h
    go r h (some s) = (k s).keep_disjoint r h

with_swap-Keeps :
    (i : ℕ) {f : ShiftSwapRequest → Roster → Result (Unit {0}) × Roster}
    → ((q : ShiftSwapRequest) → Keeps (f q))
    → Keeps (with_swap i f)
with_swap-Keeps i {f} k = record { keep_disjoint = λ r h. go r h (find_first (swap_is i) r.swaps) }
  where
    go :
        (r : Roster)
        → IsDisjoint r
        → (o : Option ShiftSwapRequest)
        → IsDisjoint
            (elim o as (λ _. Result (Unit {0}) × Roster) [
              | none ↦ (err does_not_exist, r)
              | some q ↦ f q r
            ]).1
    go r h none = h
    go r h (some q) = (k q).keep_disjoint r h

require-Keeps : (c : Bool) {f : Roster → Result (Unit {0}) × Roster} → Keeps f → Keeps (require c f)
require-Keeps true k = record { keep_disjoint = λ r h. k.keep_disjoint r h }
require-Keeps false k = record { keep_disjoint = λ r h. h }

-- A save, and what follows it if it does not raise.
after_save :
    {A : Type 0} (f : Roster → Result A × Roster)
    → Keeps f
    → (a : Result (Unit {0})) (r : Roster) → IsDisjoint r
    → IsDisjoint (elim a as (λ _. Result A × Roster) [ ok _ ↦ f r | err e ↦ (err e, r) ]).1
after_save f k (ok _) r h = k.keep_disjoint r h
after_save f k (err e) r h = h

save_both-Keeps : (s t : Shift) → Keeps (save_both s t)
unfolding save_both
save_both-Keeps s t = record {
  keep_disjoint =
      λ r h. after_save (save t) (save-Keeps t) (save s r).0 (save s r).1 (save-IsDisjoint s r h);
}

swap_shifts-Keeps : (target : Option ℕ) (i staff : ℕ) → Keeps (swap_shifts target i staff)
unfolding swap_shifts
swap_shifts-Keeps none i staff = with_shift-Keeps i λ s. save-Keeps _
swap_shifts-Keeps (some j) i staff =
    with_shift-Keeps i λ s. with_shift-Keeps j λ t. save_both-Keeps _ _

transition-Keeps :
    (i : ℕ) (p : Shift → Bool) (f : Shift → Shift)
    → Keeps (with_shift i λ s. require (p s) (save (f s)))
transition-Keeps i p f = with_shift-Keeps i λ s. require-Keeps (p s) (save-Keeps (f s))

approve-Keeps : (now who i : ℕ) → Keeps (approve now who i)
unfolding approve
approve-Keeps now who i = with_swap-Keeps i λ q. require-Keeps (is_pending q.status) (record {
  keep_disjoint =
      λ r h. (swap_shifts-Keeps q.target_shift q.original_shift q.requested_with).keep_disjoint _ h;
})

reject-Keeps : (now who i : ℕ) → Keeps (reject now who i)
unfolding reject
reject-Keeps now who i =
    with_swap-Keeps i λ q. require-Keeps (is_pending q.status) (record { keep_disjoint = λ r h. h })

insert-IsDisjoint : (s : Shift) (r : Roster) → IsDisjoint r → IsDisjoint (insert s r).1
unfolding insert clean
insert-IsDisjoint s r h = ground (
  arith,
  AreDisjoint-suc r.next_id r.shifts h,
  shift_is_fresh r.next_id r.next_id r.shifts h,
  none-clashes (record s { id = r.next_id }) r.shifts,
)

create-Keeps : (c staff from to : ℕ) (status : ShiftStatus) → Keeps (create c staff from to status)
unfolding create
create-Keeps c staff from to status = record {
  keep_disjoint = λ r h. go r h (check_conflicts c staff from to r.shifts);
}
  where
    go :
        (r : Roster)
        → IsDisjoint r
        → (conflicts : List Shift)
        → IsDisjoint
            (elim conflicts as (λ _. Result ℕ × Roster) [
              | _ ∷ _ ↦ (err validation_error, r)
              | [] ↦ insert (new_shift c staff from to status) r
            ]).1
    go r h [] = insert-IsDisjoint _ r h
    go r h (_ ∷ _) = h

mark_all-Keeps : (n : ℕ) (ss : List Shift) → Keeps (mark_all n ss)
unfolding mark_all
mark_all-Keeps n [] = record { keep_disjoint = λ r h. h }
mark_all-Keeps n (s ∷ ss) = record {
  keep_disjoint = λ r h.
      let missed = record s { status = no_show } in
      after_save (mark_all (n + 1) ss) (mark_all-Keeps (n + 1) ss) (save missed r).0
        (save missed r).1 (save-IsDisjoint missed r h);
}

-- A call from outside, of a method or of a function of includes/shifts.py.
pub data Request : Type 0 where
  create_shift : ℕ → ℕ → ℕ → ℕ → ShiftStatus → Request
  clock_in_shift clock_out_shift set_clocked_in set_clocked_out : ℕ → ℕ → Request
  no_show_shift cancel_shift : ℕ → Request
  mark_missed : ℕ → Request
  approve_swap reject_swap : ℕ → ℕ → ℕ → Request

pub serve : Request → Roster → Roster
serve (create_shift c staff from to status) r = (create c staff from to status r).1
serve (clock_in_shift time i) r = (clock_in time i r).1
serve (clock_out_shift time i) r = (clock_out time i r).1
serve (set_clocked_in time i) r = (Calls.clock_in time i r).1
serve (set_clocked_out time i) r = (Calls.clock_out time i r).1
serve (no_show_shift i) r = (mark_no_show i r).1
serve (cancel_shift i) r = (cancel i r).1
serve (mark_missed now) r = (mark_missed_shifts now r).1
serve (approve_swap now who i) r = (approve now who i r).1
serve (reject_swap now who i) r = (reject now who i r).1

pub serve_all : List Request → Roster → Roster
serve_all [] r = r
serve_all (q ∷ qs) r = serve_all qs (serve q r)

serve-IsDisjoint : (q : Request) (r : Roster) → IsDisjoint r → IsDisjoint (serve q r)
unfolding serve mark_missed_shifts clock_in clock_out mark_no_show cancel Calls.clock_in
    Calls.clock_out
serve-IsDisjoint (create_shift c staff from to status) r h =
    (create-Keeps c staff from to status).keep_disjoint r h
serve-IsDisjoint (clock_in_shift time i) r h = (transition-Keeps i _ _).keep_disjoint r h
serve-IsDisjoint (clock_out_shift time i) r h = (transition-Keeps i _ _).keep_disjoint r h
serve-IsDisjoint (set_clocked_in time i) r h =
    (with_shift-Keeps i λ s. save-Keeps _).keep_disjoint r h
serve-IsDisjoint (set_clocked_out time i) r h =
    (with_shift-Keeps i λ s. save-Keeps _).keep_disjoint r h
serve-IsDisjoint (no_show_shift i) r h = (transition-Keeps i _ _).keep_disjoint r h
serve-IsDisjoint (cancel_shift i) r h = (transition-Keeps i _ _).keep_disjoint r h
serve-IsDisjoint (mark_missed now) r h =
    (mark_all-Keeps 0 (keep (is_missed now) r.shifts)).keep_disjoint r h
serve-IsDisjoint (approve_swap now who i) r h = (approve-Keeps now who i).keep_disjoint r h
serve-IsDisjoint (reject_swap now who i) r h = (reject-Keeps now who i).keep_disjoint r h

-- From shifts with distinct identifiers that each start before they end, where no staff member has
-- two active shifts of one cluster at the same time, every sequence of requests, approved swaps
-- included, leads to such shifts: no staff member has two active shifts of one cluster at the same
-- time.
pub serve_all-IsDisjoint :
    (qs : List Request) (r : Roster) → IsDisjoint r → IsDisjoint (serve_all qs r)
unfolding serve_all
serve_all-IsDisjoint [] r h = h
serve_all-IsDisjoint (q ∷ qs) r h = serve_all-IsDisjoint qs (serve q r) (serve-IsDisjoint q r h)
