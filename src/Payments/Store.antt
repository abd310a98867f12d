-- ===== src/Payments/Store.antt =====
-- The database tables behind the payment models, and actions on them that may raise.
-- A row that an action is handed is named by its identifier: the Python objects that the callers
-- pass are fresh copies of their rows. A new row gets an identifier that no row has, as a UUID
-- does, and stands first, as the models' ordering by `-created_at` puts it.
pub mod Binds
use clustr_be.Base.{
  ℕ, ◌+◌, Bool, Option, none, some, List, ◌∷◌, ◌==◌, if◌then◌else◌, find_first, update_first,
}
use clustr_be.Payments.Types.{Wallet, Transaction, Bill, BillDispute, User}

-- The message of a `ValueError`, and the other exceptions that the code lets happen.
pub data Error : Type 0 where
  invalid_amount insufficient_balance freeze_failed not_payable exceeds_remaining : Error
  not_acknowledged no_cluster does_not_exist integrity_error field_error : Error
  attribute_error name_error module_not_found payment_error : Error
  validation_error unsupported_provider type_error : Error

pub data Result (A : Type 0) : Type 0 where
  ok : A → Result A
  err : Error → Result A

pub data EventName : Type 0 where
  payment_successful bill_created : EventName

-- A call of `notifications.send`.
pub record Notice : Type 0 where
  pub event_name : EventName
  pub recipients : List ℕ

pub record Db : Type 0 where
  pub wallets : List Wallet
  pub transactions : List Transaction
  pub bills : List Bill
  pub disputes : List BillDispute
  pub users : List User
  pub outbox : List Notice
  pub next_id : ℕ

abbrev pub Action : Type 0 → Type 0
Action A = Db → Result A × Db

module _ {A : Type 0} where
  abbrev pub pure : A → Action A
  pure a db = (ok a, db)

  abbrev pub raise : Error → Action A
  raise e db = (err e, db)

  abbrev pub gets : (Db → A) → Action A
  gets f db = (ok (f db), db)

  abbrev pub or_raise : Option A → Error → Action A
  or_raise none e = raise e
  or_raise (some a) _ = pure a

  abbrev pub from_result : Result A → Action A
  from_result r db = (r, db)

  -- `@transaction.atomic`: an exception takes back every write.
  unfoldable pub atomic : Action A → Action A
  atomic m db = let (r, db') = m db in elim r [ ok a ↦ (ok a, db') | err e ↦ (err e, db) ]

infixl 5 ◌>>=◌ ◌>>◌
unfoldable pub ◌>>=◌ : {A B : Type 0} → Action A → (A → Action B) → Action B
◌>>=◌ m f db = let (r, db') = m db in elim r [ ok a ↦ f a db' | err e ↦ raise e db' ]

unfoldable pub ◌>>◌ : {A B : Type 0} → Action A → Action B → Action B
unfolding ◌>>=◌
m >> k = m >>= λ _. k

abbrev pub raise_if : Bool → Error → Action (Unit {0})
raise_if c e db = (if c then err e else ok tt, db)

-- The rows of a table by identifier.
abbrev pub wallet_is : ℕ → Wallet → Bool
wallet_is i w = w.id == i

abbrev pub transaction_is : ℕ → Transaction → Bool
transaction_is i t = t.id == i

abbrev pub bill_is : ℕ → Bill → Bool
bill_is i b = b.id == i

abbrev pub dispute_is : ℕ → BillDispute → Bool
dispute_is i d = d.id == i

abbrev pub user_is : ℕ → User → Bool
user_is i u = u.id == i

unfoldable pub get_wallet : ℕ → Action Wallet
get_wallet i db = or_raise (find_first (wallet_is i) db.wallets) does_not_exist db

unfoldable pub get_transaction : ℕ → Action Transaction
get_transaction i db = or_raise (find_first (transaction_is i) db.transactions) does_not_exist db

unfoldable pub get_bill : ℕ → Action Bill
get_bill i db = or_raise (find_first (bill_is i) db.bills) does_not_exist db

unfoldable pub get_dispute : ℕ → Action BillDispute
get_dispute i db = or_raise (find_first (dispute_is i) db.disputes) does_not_exist db

-- `save` of a loaded row.
abbrev pub save_wallet : Wallet → Action (Unit {0})
save_wallet w db =
    (ok tt, record db { wallets = update_first (wallet_is w.id) (λ _. w) db.wallets })

abbrev pub save_transaction : Transaction → Action (Unit {0})
save_transaction t db = (
  ok tt,
  record db { transactions = update_first (transaction_is t.id) (λ _. t) db.transactions },
)

abbrev pub save_bill : Bill → Action (Unit {0})
save_bill b db = (ok tt, record db { bills = update_first (bill_is b.id) (λ _. b) db.bills })

abbrev pub fresh_id : Action ℕ
fresh_id db = (ok db.next_id, record db { next_id = db.next_id + 1 })

abbrev pub insert_wallet : Wallet → Action (Unit {0})
insert_wallet w db = (ok tt, record db { wallets = w ∷ db.wallets })

abbrev pub notify : Notice → Action (Unit {0})
notify n db = (ok tt, record db { outbox = n ∷ db.outbox })
