-- ===== src/Base/Lists.antt =====
-- Tables of rows that carry an identifier: the first row with it is the row.
use Prim.Native.Nat.{ℕ, suc}
use mathlib.Core.Path.{◌≡◌, refl}
use mathlib.Core.Bool.{Bool, true, false, not, ◌||◌}
use mathlib.Core.Option.{Option, none, some}
use mathlib.Core.List.{List, [], ◌∷◌}
use native.Mathlib.Omega.{arith}
use clustr_be.Base.Int.{ℤ, pos, ◌+ℤ◌, int_laws}
use clustr_be.Base.Tests.{◌==◌, if◌then◌else◌}

abbrev pub length {ℓ} : {A : Type ℓ} → List A → ℕ
length [] = 0
length (x ∷ xs) = suc (length xs)

-- `filter(...).first()`
abbrev pub find_first {ℓ} : {A : Type ℓ} → (A → Bool) → List A → Option A
find_first p [] = none
find_first p (x ∷ xs) = if p x then some x else find_first p xs

-- `filter(...).exists()`
abbrev pub any {ℓ} : {A : Type ℓ} → (A → Bool) → List A → Bool
any p [] = false
any p (x ∷ xs) = p x || any p xs

-- `filter(...)`
abbrev pub keep {ℓ} : {A : Type ℓ} → (A → Bool) → List A → List A
keep p [] = []
keep p (x ∷ xs) = let rest = keep p xs in if p x then x ∷ rest else rest

-- A write to the first row that passes the test.
abbrev pub update_first {ℓ} : {A : Type ℓ} → (A → Bool) → (A → A) → List A → List A
update_first p f [] = []
update_first p f (x ∷ xs) = if p x then f x ∷ xs else x ∷ update_first p f xs

-- Membership in a set of identifiers.
abbrev pub contains : ℕ → List ℕ → Bool
contains a = any (λ b. a == b)

-- `aggregate(Sum(...))`, and 0 for no row.
abbrev pub sum_by {ℓ} : {A : Type ℓ} → (A → ℤ) → List A → ℤ
sum_by f [] = pos 0
sum_by f (x ∷ xs) = f x +ℤ sum_by f xs

-- A write to the row found replaces its contribution to a sum.
pub sum_by-update_first {ℓ} :
    {A : Type ℓ} (f : A → ℤ) (p : A → Bool) (g : A → A) (x : A) (xs : List A)
    → find_first p xs ≡ some x
    → sum_by f (update_first p g xs) +ℤ f x ≡ sum_by f xs +ℤ f (g x)
sum_by-update_first f p g x [] h = cc
sum_by-update_first f p g x (y ∷ xs) h = grind (int_laws, sum_by-update_first f p g x xs)

-- The row found passes the test.
pub find_first-passes {ℓ} :
    {A : Type ℓ} (p : A → Bool) (x : A) (xs : List A) → find_first p xs ≡ some x → p x ≡ true
find_first-passes p x [] h = cc
find_first-passes p x (y ∷ xs) h = ground (arith, find_first-passes p x xs)

-- A row that fails every row's test is none of them.
pub find_first-ne {ℓ} :
    {A : Type ℓ} (p q : A → Bool) (x : A) (xs : List A)
    → find_first p xs ≡ some x
    → find_first q xs ≡ none
    → q x ≡ false
find_first-ne p q x [] h k = cc
find_first-ne p q x (y ∷ xs) h k = ground (arith, find_first-ne p q x xs)

-- A write that keeps a row failing a test, as it did, is not seen by the test.
pub find_first-update_other {ℓ} :
    {A : Type ℓ} (p q : A → Bool) (x y : A) (xs : List A)
    → find_first q xs ≡ some x
    → p x ≡ false
    → p y ≡ false
    → find_first p (update_first q (λ _. y) xs) ≡ find_first p xs
find_first-update_other p q x y [] h e k = refl
find_first-update_other p q x y (z ∷ xs) h e k = ground (arith, find_first-update_other p q x y xs)

-- A write to a row is read back.
pub find_first-update_self {ℓ} :
    {A : Type ℓ} (q : A → Bool) (x y : A) (xs : List A)
    → find_first q xs ≡ some x
    → q y ≡ true
    → find_first q (update_first q (λ _. y) xs) ≡ some y
find_first-update_self q x y [] h e = cc
find_first-update_self q x y (z ∷ xs) h e = ground (arith, find_first-update_self q x y xs)

pub any_none {ℓ} :
    {A : Type ℓ} (p : A → Bool) (xs : List A) → ((x : A) → p x ≡ false) → any p xs ≡ false
any_none p [] h = refl
any_none p (x ∷ xs) h = rw (h x, any_none p xs h)

-- Writing a row and writing the old one back changes nothing.
pub update_first_back {ℓ} :
    {A : Type ℓ} (q : A → Bool) (x y : A) (xs : List A)
    → find_first q xs ≡ some x
    → q y ≡ true
    → update_first q (λ _. x) (update_first q (λ _. y) xs) ≡ xs
update_first_back q x y [] h e = refl
update_first_back q x y (z ∷ xs) h e = ground (arith, update_first_back q x y xs)

-- Of two writes of a row the second stays.
pub update_first_twice {ℓ} :
    {A : Type ℓ} (q : A → Bool) (x y : A) (xs : List A)
    → q x ≡ true
    → update_first q (λ _. y) (update_first q (λ _. x) xs) ≡ update_first q (λ _. y) xs
update_first_twice q x y [] e = refl
update_first_twice q x y (z ∷ xs) e = ground (arith, update_first_twice q x y xs)

pub keep_absent : (a : ℕ) (xs : List ℕ) → contains a xs ≡ false → keep (λ b. not (a == b)) xs ≡ xs
keep_absent a [] h = refl
keep_absent a (x ∷ xs) h = ground (arith, keep_absent a xs)
