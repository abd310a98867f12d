-- ===== src/Payments/Moves.antt =====
-- What an action does to the money in the wallets, step by step: the statements about it are
-- composed along the `do` blocks of the code.
use clustr_be.Base.{ℕ, ◌≤◌, ◌≡◌, refl, ap, Option, none, some, arith, find_first}
use clustr_be.Base.Int.{ℤ, pos, ◌+ℤ◌, int_laws}
use clustr_be.Base.Lists.{sum_by-update_first}
use clustr_be.Payments.Types.{Wallet, Transaction}
use clustr_be.Payments.Store.{
  Db, Result, Error, ok, err, or_raise, gets, Action, wallet_is, does_not_exist, get_bill,
  get_transaction, get_wallet, atomic, from_result, save_wallet, save_transaction, ◌>>=◌, ◌>>◌,
}
use clustr_be.Payments.Ledger.{
  IsValid, balance_of, IsSolvent, AreSolvent, find_first-IsSolvent, AreSolvent-update, available_of,
  total_balance, total_available, AreDistinct-mono, AreDistinct-update,
}

-- From a valid state to a valid state, with `x` more money; solvent wallets stay so.
pub record Moves (db db' : Db) (x : ℤ) : Type 0 where
  pub valid : IsValid db'
  pub money : total_balance db' ≡ total_balance db +ℤ x
  pub free : total_available db' ≡ total_available db +ℤ x
  pub solvent : AreSolvent db.wallets → AreSolvent db'.wallets

-- An action that raises leaves a state that `atomic` throws away.
abbrev pub Effect : {A : Type 0} → Db → ℤ → Result A × Db → Type 0
Effect db x (ok _, db') = Moves db db' x
Effect db x (err _, db') = Unit

pub Moves-trans : {a b c : Db} (x y z : ℤ) → Moves a b x → Moves b c y → z ≡ x +ℤ y → Moves a c z
Moves-trans x y z h k e = record {
  valid = k.valid;
  money = rw (k.money, h.money, e) (omega int_laws);
  free = rw (k.free, h.free, e) (omega int_laws);
  solvent = λ p. k.solvent (h.solvent p);
}

-- A step that leaves the wallets alone moves no money.
pub Moves-same :
    (db db' : Db)
    → IsValid db
    → db'.wallets ≡ db.wallets
    → db.next_id ≤ db'.next_id
    → Moves db db' (pos 0)
Moves-same db db' v e le = record {
  valid = rw e (AreDistinct-mono _ _ db.wallets le v);
  money = rw e (omega int_laws);
  free = rw e (omega int_laws);
  solvent = λ p. rw e p;
}

shift_by : (s t o n x : ℤ) → n ≡ o +ℤ x → s +ℤ o ≡ t +ℤ n → s ≡ t +ℤ x
shift_by s t o n x p q = grind int_laws

-- A write of a wallet moves what it adds to the wallet.
pub save_wallet-Moves :
    (x : ℤ) (w w' : Wallet) (db : Db)
    → IsValid db
    → find_first (wallet_is w'.id) db.wallets ≡ some w
    → w'.balance ≡ w.balance +ℤ x
    → w'.available_balance ≡ w.available_balance +ℤ x
    → (IsSolvent w → IsSolvent w')
    → Moves db (save_wallet w' db).1 x
save_wallet-Moves x w w' db v found b a keep = record {
  solvent = λ p.
      AreSolvent-update w'.id w' db.wallets p
        (keep (find_first-IsSolvent (wallet_is w'.id) w db.wallets p found));
  valid = AreDistinct-update db.next_id w'.id w' db.wallets refl v;
  money =
      shift_by _ _ _ _ x b
        (sum_by-update_first balance_of (wallet_is w'.id) (λ _. w') w db.wallets found);
  free =
      shift_by _ _ _ _ x a
        (sum_by-update_first available_of (wallet_is w'.id) (λ _. w') w db.wallets found);
}

-- An action in a valid state raises, or moves `x` and leaves the state valid.
pub record Transfers {A : Type 0} (m : Action A) (db : Db) (x : ℤ) : Type 0 where
  pub effect : Effect db x (m db)

-- The rule for a sequence of two actions.
module _ {A B : Type 0} (f : A → Action B) (db : Db) (x y z : ℤ) (e : z ≡ x +ℤ y) where
  after : (db' : Db) (s : Result B × Db) → Moves db db' x → Effect db' y s → Effect db z s
  after db' (ok b, db'') h k = Moves-trans x y z h k e
  after db' (err _, db'') h k = tt

  bind :
      (r : Result A × Db)
      → Effect db x r
      → ((a : A) (db' : Db) → r ≡ (ok a, db') → Moves db db' x → Effect db' y (f a db'))
      → Effect db z (((λ _. r) >>= f) db)
  unfolding ◌>>=◌
  bind (ok a, db') h k = after db' (f a db') h (k a db' refl h)
  bind (err _, db') h k = tt

module _ {A B : Type 0} {f : A → Action B} {db : Db} {m : Action A} where
  pub Transfers->>= :
      (x y z : ℤ)
      → z ≡ x +ℤ y
      → Transfers m db x
      → ((a : A) (db' : Db) → m db ≡ (ok a, db') → Moves db db' x → Transfers (f a) db' y)
      → Transfers (m >>= f) db z
  unfolding ◌>>=◌
  Transfers->>= x y z e h k = record {
    effect = bind f db x y z e (m db) h.effect (λ a db' q v. (k a db' q v).effect);
  }

atomic-Effect :
    {A : Type 0} (r : Result A × Db) (db : Db) (x : ℤ)
    → Effect db x r
    → Effect db x (atomic (λ _. r) db)
unfolding atomic
atomic-Effect (ok a, db') db x h = h
atomic-Effect (err _, db') db x h = tt

pub Transfers-atomic :
    {A : Type 0} (x : ℤ) {m : Action A} {db : Db} → Transfers m db x → Transfers (atomic m) db x
unfolding atomic
Transfers-atomic x {m} {db} h = record { effect = atomic-Effect (m db) db x h.effect }

Effect-same :
    {A : Type 0} (db : Db) (r : Result A × Db)
    → IsValid db
    → r.1.wallets ≡ db.wallets
    → db.next_id ≤ r.1.next_id
    → Effect db (pos 0) r
Effect-same db (ok a, db') v e le = Moves-same db db' v e le
Effect-same db (err _, db') v e le = tt

-- What an action keeps that leaves the wallets alone.
pub record KeepsWallets {A : Type 0} (m : Action A) (db : Db) : Type 0 where
  pub same : (m db).1.wallets ≡ db.wallets
  pub grows : db.next_id ≤ (m db).1.next_id

-- An action that leaves the whole state alone.
pub KeepsWallets-of_eq : {A : Type 0} (m : Action A) (db : Db) → (m db).1 ≡ db → KeepsWallets m db
KeepsWallets-of_eq m db e = record { same = ap (λ d. d.wallets) e; grows = rw e (omega arith) }

pub or_raise-KeepsWallets :
    {A : Type 0} (o : Option A) (e : Error) (db : Db) → KeepsWallets (or_raise o e) db
or_raise-KeepsWallets none e db = KeepsWallets-of_eq _ db refl
or_raise-KeepsWallets (some a) e db = KeepsWallets-of_eq _ db refl

-- An action that leaves the wallets alone moves no money.
pub Transfers-same :
    {A : Type 0} {m : Action A} (db : Db) → IsValid db → KeepsWallets m db → Transfers m db (pos 0)
Transfers-same {m} db v k = record { effect = Effect-same db (m db) v k.same k.grows }

-- The steps that raise or pass a value on, and leave the state as it is.
pub Transfers-from_result :
    {A : Type 0} (r : Result A) (db : Db) → IsValid db → Transfers (from_result r) db (pos 0)
Transfers-from_result r db v = Transfers-same db v (KeepsWallets-of_eq _ db refl)

-- A step that leaves the wallets alone, in front of one that moves `x`.
module _ {A B : Type 0} (f : A → Action B) (db : Db) (x : ℤ) where
  keep_step :
      (r : Result A × Db)
      → IsValid db
      → r.1.wallets ≡ db.wallets
      → db.next_id ≤ r.1.next_id
      → ((a : A) (db' : Db) → db'.wallets ≡ db.wallets → IsValid db' → Transfers (f a) db' x)
      → Effect db x (((λ _. r) >>= f) db)
  unfolding ◌>>=◌
  keep_step (ok a, db') v e le k =
      let m' = Moves-same db db' v e le in
      after f db (pos 0) x x (omega int_laws) db' (f a db') m' (k a db' e m'.valid).effect
  keep_step (err _, db') v e le k = tt

pub Transfers-keep :
    {A B : Type 0} {f : A → Action B} {db : Db} {m : Action A} (x : ℤ)
    → IsValid db
    → KeepsWallets m db
    → ((a : A) (db' : Db) → db'.wallets ≡ db.wallets → IsValid db' → Transfers (f a) db' x)
    → Transfers (m >>= f) db x
unfolding ◌>>=◌
Transfers-keep {f} {db} {m} x v k c = record { effect = keep_step f db x (m db) v k.same k.grows c }

-- `>>` is `>>=` with the value passed over.
pub Transfers->> :
    {A B : Type 0} (m : Action A) (n : Action B) {db : Db} {x : ℤ}
    → Transfers (m >>= λ _. n) db x
    → Transfers (m >> n) db x
unfolding ◌>>◌
Transfers->> m n h = h

pub get_bill-KeepsWallets : (i : ℕ) (db : Db) → KeepsWallets (get_bill i) db
unfolding get_bill
get_bill-KeepsWallets i db = KeepsWallets-of_eq _ db (ground arith)

pub get_transaction-KeepsWallets : (i : ℕ) (db : Db) → KeepsWallets (get_transaction i) db
unfolding get_transaction
get_transaction-KeepsWallets i db = KeepsWallets-of_eq _ db (ground arith)

-- The wallet that is read is the row of its identifier.
pub Transfers-get_wallet :
    {A : Type 0} {f : Wallet → Action A} (x : ℤ) (i : ℕ) (db : Db)
    → ((w : Wallet) → find_first (wallet_is i) db.wallets ≡ some w → Transfers (f w) db x)
    → Transfers (get_wallet i >>= f) db x
unfolding get_wallet ◌>>=◌
Transfers-get_wallet {A} {f} x i db k = record {
  effect = go (find_first (wallet_is i) db.wallets) refl;
}
  where
    go :
        (o : Option Wallet)
        → find_first (wallet_is i) db.wallets ≡ o
        → Effect db x (((λ _. or_raise o does_not_exist db) >>= f) db)
    go none e = tt
    go (some w) e = (k w e).effect

-- What a wallet method does to the money of the wallet, where it does not raise.
abbrev pub Adds : ℤ → Wallet → Result Wallet → Type 0
Adds x w (ok w') =
    (w'.id ≡ w.id)
    × (w'.balance ≡ w.balance +ℤ x)
    × (w'.available_balance ≡ w.available_balance +ℤ x)
    × (IsSolvent w → IsSolvent w')
Adds x w (err _) = Unit

-- A method of a wallet, the write of its result, and what follows.
module _ (x y z : ℤ) (e : z ≡ x +ℤ y) (w : Wallet) {B : Type 0} {rest : Action B} where
  save_then :
      (w' : Wallet) (db : Db)
      → Moves db (save_wallet w' db).1 x
      → ((db' : Db) → IsValid db' → Transfers rest db' y)
      → Transfers (save_wallet w' >> rest) db z
  save_then w' db m k = Transfers->> (save_wallet w') rest (
      Transfers->>= {m = save_wallet w'} x y z e (record { effect = m })
        λ _ db' _ m'. k db' m'.valid)

  pub save_result-Transfers :
      (r : Result Wallet)
      → Adds x w r
      → (db : Db) → IsValid db
      → find_first (wallet_is w.id) db.wallets ≡ some w
      → ((db' : Db) → IsValid db' → Transfers rest db' y)
      → Transfers (from_result r >>= λ w'. save_wallet w' >> rest) db z
  unfolding ◌>>=◌
  save_result-Transfers (ok w') (i, b, a, p) db v q k = record {
    effect = (save_then w' db (save_wallet-Moves x w w' db v (rw i q) b a p) k).effect;
  }
  save_result-Transfers (err _) h db v q k = record { effect = tt }

pub save_transaction-KeepsWallets :
    (t : Transaction) (db : Db) → KeepsWallets (save_transaction t) db
save_transaction-KeepsWallets t db = record { same = refl; grows = omega arith }

-- What is read or demanded in a state is what the next step gets, in the same state.
pub Transfers-gets :
    {A B : Type 0} (g : Db → A) (f : A → Action B) (db : Db) (x : ℤ)
    → Transfers (f (g db)) db x
    → Transfers (gets g >>= f) db x
unfolding ◌>>=◌
Transfers-gets g f db x h = record { effect = h.effect }

pub Transfers-or_raise :
    {A B : Type 0} (o : Option A) (e : Error) (f : A → Action B) (db : Db) (x : ℤ)
    → ((a : A) → o ≡ some a → Transfers (f a) db x)
    → Transfers (or_raise o e >>= f) db x
unfolding ◌>>=◌
Transfers-or_raise none e f db x k = record { effect = tt }
Transfers-or_raise (some a) e f db x k = record { effect = (k a refl).effect }
