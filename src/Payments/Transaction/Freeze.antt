-- ===== src/Payments/Transaction/Freeze.antt =====
-- The life of an amount that a pending transaction freezes.
use Prim.Native.String.{String}
use clustr_be.Base.{
  ℕ, ◌+◌, ◌≡◌, refl, true, false, Option, none, some, ◌∷◌, arith, find_first, update_first,
}
use clustr_be.Base.Int.{ℤ, pos, ◌-ℤ◌, leb_ℤ}
use clustr_be.Base.Lists.{update_first_back, find_first-update_self, any_none}
use clustr_be.Payments.Types.{Wallet, TransactionType, is_outgoing}
use clustr_be.Payments.Store.{Db, ok, wallet_is, get_wallet, get_transaction, ◌>>=◌, ◌>>◌}
use clustr_be.Payments.Wallet.{has_sufficient_balance, freeze_amount, unfreeze_amount}
use clustr_be.Payments.Wallet.Roundtrip.{sub_add}
use clustr_be.Payments.Transaction.{
  pending_row, same_key, insert_transaction, create_pending_transaction, mark_as_completed, release,
  mark_as_failed,
}

-- A wallet with `x` of its available balance frozen.
abbrev pub frozen : ℤ → Wallet → Wallet
frozen x w = record w { available_balance = w.available_balance -ℤ x }

-- The state after `create_pending_transaction`.
abbrev pub pended : ℤ → TransactionType → Wallet → Db → Db
pended x type w db = record db {
  wallets = update_first (wallet_is w.id) (λ _. frozen x w) db.wallets;
  transactions = record (pending_row w w.id type x) { id = db.next_id } ∷ db.transactions;
  next_id = db.next_id + 1;
}

pub create_pending_ok :
    (x : ℤ) (type : TransactionType) (w : Wallet) (db : Db)
    → find_first (wallet_is w.id) db.wallets ≡ some w
    → is_outgoing type ≡ true
    → leb_ℤ x (pos 0) ≡ false
    → has_sufficient_balance w x ≡ true
    → create_pending_transaction w.id x type true db ≡ (ok db.next_id, pended x type w db)
unfolding create_pending_transaction insert_transaction freeze_amount has_sufficient_balance
    get_wallet ◌>>=◌ ◌>>◌
create_pending_ok x type w db hw ho hx hs =
    ground (arith, any_none (same_key none) db.transactions (λ s. refl))

fail_pended :
    (now : ℕ) (reason : Option String) (x : ℤ) (type : TransactionType) (w : Wallet) (db : Db)
    → find_first (wallet_is w.id) db.wallets ≡ some w
    → is_outgoing type ≡ true
    → let (r, db₂) = mark_as_failed now reason db.next_id (pended x type w db) in
      (r ≡ ok tt) × (db₂.wallets ≡ db.wallets)
unfolding mark_as_failed release unfreeze_amount get_wallet get_transaction ◌>>=◌ ◌>>◌
fail_pended now reason x type w db hw ho = ground (
  arith,
  find_first-update_self (wallet_is w.id) w (frozen x w) db.wallets hw,
  update_first_back (wallet_is w.id) w (frozen x w) db.wallets hw,
  sub_add w.available_balance x,
)

-- A pending payment out of a wallet that covers it freezes its amount and leaves the balance;
-- completing the transaction afterwards changes no wallet: the amount stays in the balance and
-- stays frozen.
mark_as_completed-create_pending :
    (now : ℕ) (extra : String) (x : ℤ) (type : TransactionType) (w : Wallet) (db : Db)
    → find_first (wallet_is w.id) db.wallets ≡ some w
    → is_outgoing type ≡ true
    → leb_ℤ x (pos 0) ≡ false
    → has_sufficient_balance w x ≡ true
    → let (r, db₁) = create_pending_transaction w.id x type true db in
      let (r', db₂) = mark_as_completed now extra db.next_id db₁ in
      (r ≡ ok db.next_id)
      × (r' ≡ ok tt)
      × (db₂.wallets ≡ update_first (wallet_is w.id) (λ _. frozen x w) db.wallets)
unfolding mark_as_completed get_transaction ◌>>=◌
mark_as_completed-create_pending now extra x type w db hw ho hx hs =
    rw (create_pending_ok x type w db hw ho hx hs) (ground arith)

-- A pending payment out of a wallet that covers it, and then its failure, leave every wallet as
-- it was.
pub mark_as_failed-create_pending :
    (now : ℕ) (reason : Option String) (x : ℤ) (type : TransactionType) (w : Wallet) (db : Db)
    → find_first (wallet_is w.id) db.wallets ≡ some w
    → is_outgoing type ≡ true
    → leb_ℤ x (pos 0) ≡ false
    → has_sufficient_balance w x ≡ true
    → let (r, db₁) = create_pending_transaction w.id x type true db in
      let (r', db₂) = mark_as_failed now reason db.next_id db₁ in
      (r ≡ ok db.next_id) × (r' ≡ ok tt) × (db₂.wallets ≡ db.wallets)
mark_as_failed-create_pending now reason x type w db hw ho hx hs =
    rw (create_pending_ok x type w db hw ho hx hs) (
      refl,
      (fail_pended now reason x type w db hw ho).0,
      (fail_pended now reason x type w db hw ho).1,
    )
