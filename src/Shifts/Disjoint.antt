-- ===== src/Shifts/Disjoint.antt =====
-- No staff member has two active shifts in one cluster at the same time, whatever is done.
use clustr_be.Base.{
  not, leb, ℕ, ◌+◌, ◌≤◌, ◌<◌, ◌≡◌, refl, Bool, false, ◌&&◌, none, List, [], ◌∷◌, arith, ◌==◌, any,
  find_first, update_first,
}
use clustr_be.Shifts.{Shift, Roster, is_active, is_overlapping, shift_is, clean, save}

-- Neither shift ends before the other starts.
abbrev pub at_once : Shift → Shift → Bool
at_once s t = not (leb t.end_time s.start_time) && not (leb s.end_time t.start_time)

-- Two shifts of one staff member that are both active, at the same time.
abbrev pub clashes : Shift → Shift → Bool
clashes s t =
    is_active s.status
    && ((t.cluster == s.cluster)
        && ((t.assigned_staff == s.assigned_staff) && (is_active t.status && at_once s t)))

-- Identifiers are distinct and below `n`, every shift starts before it ends, and no two clash.
abbrev pub AreDisjoint : ℕ → List Shift → Type 0
AreDisjoint n [] = Unit
AreDisjoint n (s ∷ ss) =
    (s.id < n)
    × (find_first (shift_is s.id) ss ≡ none)
    × (s.start_time < s.end_time)
    × (any (clashes s) ss ≡ false)
    × AreDisjoint n ss

abbrev pub IsDisjoint : Roster → Type 0
IsDisjoint r = AreDisjoint r.next_id r.shifts

pub AreDisjoint-suc : (n : ℕ) (ss : List Shift) → AreDisjoint n ss → AreDisjoint (n + 1) ss
AreDisjoint-suc n [] h = tt
AreDisjoint-suc n (s ∷ ss) h = (omega arith, h.1, h.2, h.3, AreDisjoint-suc n ss h.4)

pub shift_is_fresh :
    (n m : ℕ) (ss : List Shift) → AreDisjoint n ss → n ≤ m → find_first (shift_is m) ss ≡ none
shift_is_fresh n m [] h le = refl
shift_is_fresh n m (s ∷ ss) h le = ground (arith, shift_is_fresh n m ss h.4 le)

-- A shift that passes the validation clashes with no shift of another identifier.
pub none-clashes :
    (s : Shift) (ss : List Shift)
    → any (is_overlapping s) ss ≡ false
    → find_first (shift_is s.id) ss ≡ none
    → any (clashes s) ss ≡ false
none-clashes s [] h k = refl
none-clashes s (t ∷ ss) h k = ground (arith, none-clashes s ss)

update_clash :
    (t s : Shift) (ss : List Shift)
    → any (clashes t) ss ≡ false
    → clashes t s ≡ false
    → any (clashes t) (update_first (shift_is s.id) (λ _. s) ss) ≡ false
update_clash t s [] h k = refl
update_clash t s (u ∷ ss) h k = ground (arith, update_clash t s ss)

update_fresh :
    (i : ℕ) (s : Shift) (ss : List Shift)
    → find_first (shift_is i) ss ≡ none
    → shift_is i s ≡ false
    → find_first (shift_is i) (update_first (shift_is s.id) (λ _. s) ss) ≡ none
update_fresh i s [] h k = refl
update_fresh i s (u ∷ ss) h k = ground (arith, update_fresh i s ss)

AreDisjoint-update :
    (n : ℕ) (s : Shift) (ss : List Shift)
    → AreDisjoint n ss
    → s.start_time < s.end_time
    → any (is_overlapping s) ss ≡ false
    → AreDisjoint n (update_first (shift_is s.id) (λ _. s) ss)
AreDisjoint-update n s [] h lt r = tt
AreDisjoint-update n s (t ∷ ss) h lt r = ground (
  arith,
  AreDisjoint-update n s ss h.4 lt,
  none-clashes s ss,
  update_fresh t.id s ss,
  update_clash t s ss,
)

pub save-IsDisjoint : (s : Shift) (r : Roster) → IsDisjoint r → IsDisjoint (save s r).1
unfolding save clean
save-IsDisjoint s r h = ground (arith, AreDisjoint-update r.next_id s r.shifts h)
