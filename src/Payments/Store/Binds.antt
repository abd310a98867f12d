-- ===== src/Payments/Store/Binds.antt =====
-- What a sequence of actions computes to, once its first part is known.
use clustr_be.Base.{◌≡◌, ◌⊎◌, inl, inr, refl}
use clustr_be.Payments.Store.{Db, Action, Error, Result, ok, err, ◌>>=◌, ◌>>◌}

-- The value of a bind whose first part succeeds.
pub bind_ok :
    {A B : Type 0} (m : Action A) (f : A → Action B) (db db' : Db) (a : A)
    → m db ≡ (ok a, db')
    → (m >>= f) db ≡ f a db'
unfolding ◌>>=◌
bind_ok m f db db' a e = cc

pub then_ok :
    {A B : Type 0} (m : Action A) (k : Action B) (db db' : Db) (a : A)
    → m db ≡ (ok a, db')
    → (m >> k) db ≡ k db'
unfolding ◌>>◌
then_ok m k db db' a e = bind_ok m (λ _. k) db db' a e

pub bind_err :
    {A B : Type 0} (m : Action A) (f : A → Action B) (db db' : Db) (e : Error)
    → m db ≡ (err e, db')
    → (m >>= f) db ≡ (err e, db')
unfolding ◌>>=◌
bind_err m f db db' e h = cc

abbrev pub Ends : {A : Type 0} → Result A × Db → Type 0
Ends {A} r =
    ((a : A) × (db : Db) × (r ≡ (ok a, db))) ⊎ ((e : Error) × (db : Db) × (r ≡ (err e, db)))

-- To split on what an action returns.
pub Ends-cases : {A : Type 0} (r : Result A × Db) → Ends r
Ends-cases (ok a, db) = inl (a, db, refl)
Ends-cases (err e, db) = inr (e, db, refl)

pub then_err :
    {A B : Type 0} (m : Action A) (k : Action B) (db db' : Db) (e : Error)
    → m db ≡ (err e, db')
    → (m >> k) db ≡ (err e, db')
unfolding ◌>>◌
then_err m k db db' e h = bind_err m (λ _. k) db db' e h
