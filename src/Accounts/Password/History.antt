-- ===== src/Accounts/Password/History.antt =====
-- A password that has been replaced cannot be taken again at once.
use Prim.Native.String.{String}
use clustr_be.Base.{
  ◌≤◌, ◌≡◌, Bool, true, none, some, List, [], ◌∷◌, ◌++◌, arith, any, length, inl, inr, Option-cases,
}
use clustr_be.Base.Texts.{same_text_refl, same_text_eq, has_text}
use clustr_be.Accounts.{Account, Site, done, refused, password_used}
use clustr_be.Accounts.Password.{
  take_last, remember, with_password, validate_new_password, change_password,
}

any-has_text :
    (p : String → Bool) (h : String) (hs : List String)
    → has_text h hs ≡ true
    → p h ≡ true
    → any p hs ≡ true
any-has_text p h [] e k = cc
any-has_text p h (x ∷ hs) e k = ground (arith, same_text_eq h x, any-has_text p h hs)

length-snoc : (h : String) (hs : List String) → 1 ≤ length (hs ++ h ∷ [])
length-snoc h [] = omega arith
length-snoc h (x ∷ hs) = omega arith

has_text-snoc : (h : String) (hs : List String) → has_text h (hs ++ h ∷ []) ≡ true
has_text-snoc h [] = ground (arith, same_text_refl h)
has_text-snoc h (x ∷ hs) = ground (arith, has_text-snoc h hs)

-- The last of a list is among its last ten.
has_text-take_last :
    (h : String) (hs : List String) → has_text h (take_last 10 (hs ++ h ∷ [])) ≡ true
has_text-take_last h [] = ground (arith, same_text_refl h)
has_text-take_last h (x ∷ hs) = ground (arith, has_text-take_last h hs, has_text-snoc h hs)

-- A successful change, and the history that it found.
changed :
    (site : Site) (new : String) (a a' : Account)
    → change_password site none new a ≡ (done tt, a')
    → (hashes : List String) × (a.previous_passwords ≡ some hashes)
      × (a' ≡ with_password site none new a)
unfolding change_password validate_new_password
changed site new a a' e = elim (Option-cases a.previous_passwords) [
  | inl n ↦ absurd (ground arith)
  | inr (hashes, n) ↦ (hashes, n, ground arith)
]

used_in_history :
    (site : Site) (old : String) (hashes : List String) (a : Account)
    → a.previous_passwords ≡ some hashes
    → any (site.check_password old) hashes ≡ true
    → change_password site none old a ≡ (refused password_used, a)
unfolding change_password validate_new_password
used_in_history site old hashes a n h = ground arith

old_in_history :
    (site : Site) (old hash : String) (hashes : List String)
    → ((h : String) (hs : List String) → has_text h (site.list_of_set hs) ≡ has_text h hs)
    → site.check_password old hash ≡ true
    → any (site.check_password old) (remember site hash (some hashes)) ≡ true
old_in_history site old hash hashes keep c =
    any-has_text (site.check_password old) hash _
      (rw (keep hash (take_last 10 (hashes ++ hash ∷ []))) (has_text-take_last hash hashes)) c

-- After a change of the password without the old one given, as a reset does it, every password
-- that the old hash accepts is refused as used, where making a set of the history keeps its
-- members.
pub change_password-refused :
    (site : Site) (new old : String) (a a' : Account)
    → ((h : String) (hs : List String) → has_text h (site.list_of_set hs) ≡ has_text h hs)
    → change_password site none new a ≡ (done tt, a')
    → site.check_password old a.password ≡ true
    → change_password site none old a' ≡ (refused password_used, a')
change_password-refused site new old a a' keep e c =
    let (hashes, n, q) = changed site new a a' e in
    used_in_history site old (remember site a.password (some hashes)) a' (ground (arith, q, n))
      (old_in_history site old a.password hashes keep c)
