-- ===== src/Payments/Failures/Unfreezing.antt =====
-- What a retry does to the amount that a failed payment had frozen.
use Prim.Native.String.{String}
use clustr_be.Base.{
  ℕ, ◌+◌, ◌≡◌, refl, true, false, some, ◌∷◌, arith, leb, ap, ◌∙◌, ◌==◌, find_first, update_first,
}
use clustr_be.Base.Int.{ℤ, pos, ◌+ℤ◌, leb_ℤ}
use clustr_be.Payments.Types.{
  Wallet, Transaction, TransactionType, failed, is_outgoing, is_unsettled,
}
use clustr_be.Payments.Store.{
  Db, pure, save_transaction, ok, wallet_is, get_wallet, get_transaction, ◌>>=◌, ◌>>◌,
}
use clustr_be.Payments.Store.Binds.{bind_ok, then_ok}
use clustr_be.Payments.Wallet.{has_sufficient_balance, unfreeze_amount}
use clustr_be.Base.Lists.{update_first_back, find_first-update_self}
use clustr_be.Payments.Wallet.Roundtrip.{sub_add}
use clustr_be.Payments.Transaction.Freeze.{frozen, create_pending_ok}
use clustr_be.Payments.Transaction.{
  fail_row, pending_row, create_pending_transaction, release, mark_as_failed,
}
use clustr_be.Payments.Webhook.{PaymentProvider}
use clustr_be.Payments.Failures.{
  failure_result, is_failed, count_or_zero, reset, handle_transaction_failure,
  retry_failed_transaction,
}

-- The state whose newest transaction is `t`.
abbrev with_newest : Transaction → Db → Db
with_newest t db = record db { transactions = t ∷ db.transactions }

abbrev failed_row : ℕ → String → Transaction → Transaction
failed_row now m t = record t { status = failed; failed_at = some now; failure_reason = some m }

abbrev unfrozen : Transaction → Wallet → Db → Db
unfrozen t w db = record db {
  wallets = update_first (wallet_is w.id) (λ _. unfreeze_amount t.amount w) db.wallets;
}

same_number : (n : ℕ) → (n == n) ≡ true
same_number n = ground arith

get_newest :
    (t : Transaction) (db : Db) → get_transaction t.id (with_newest t db) ≡ (ok t, with_newest t db)
unfolding get_transaction
get_newest t db = rw (same_number t.id) refl

release_newest :
    (t : Transaction) (w : Wallet) (db : Db)
    → find_first (wallet_is t.wallet) db.wallets ≡ some w
    → is_outgoing t.type ≡ true
    → release t (with_newest t db) ≡ (ok tt, with_newest t (unfrozen t w db))
unfolding release get_wallet unfreeze_amount
release_newest t w db hw ho =
    rw ho (bind_ok (get_wallet t.wallet) _ (with_newest t db) (with_newest t db) w (rw hw refl))

fail_row_newest :
    (now : ℕ) (m : String) (t : Transaction) (w : Wallet) (db : Db)
    → find_first (wallet_is t.wallet) db.wallets ≡ some w
    → is_outgoing t.type ≡ true
    → is_unsettled t.status ≡ true
    → fail_row now (some m) t (with_newest t db)
      ≡ (ok tt, with_newest (failed_row now m t) (unfrozen t w db))
unfolding fail_row
fail_row_newest now m t w db hw ho hu = rw hu (
    then_ok (release t) (save_transaction (failed_row now m t)) (with_newest t db)
      (with_newest t (unfrozen t w db)) tt (release_newest t w db hw ho)
    ∙ rw (same_number t.id) refl)

mark_newest :
    (now : ℕ) (m : String) (t : Transaction) (w : Wallet) (db : Db)
    → find_first (wallet_is t.wallet) db.wallets ≡ some w
    → is_outgoing t.type ≡ true
    → is_unsettled t.status ≡ true
    → mark_as_failed now (some m) t.id (with_newest t db)
      ≡ (ok tt, with_newest (failed_row now m t) (unfrozen t w db))
unfolding mark_as_failed
mark_newest now m t w db hw ho hu =
    bind_ok (get_transaction t.id) (fail_row now (some m)) (with_newest t db) (with_newest t db) t
      (get_newest t db)
    ∙ fail_row_newest now m t w db hw ho hu

-- The failure of the newest transaction, out of the wallet `w`.
fail_newest :
    (now : ℕ) (p : PaymentProvider) (m : String) (t : Transaction) (w : Wallet) (db : Db)
    → find_first (wallet_is t.wallet) db.wallets ≡ some w
    → is_outgoing t.type ≡ true
    → is_unsettled t.status ≡ true
    → (handle_transaction_failure now p m t.id (with_newest t db)).1
      ≡ with_newest (failed_row now m t) (unfrozen t w db)
unfolding handle_transaction_failure
fail_newest now p m t w db hw ho hu =
    ap (λ r. r.1)
      (then_ok (mark_as_failed now (some m) t.id) (pure (failure_result m p t.id))
        (with_newest t db) (with_newest (failed_row now m t) (unfrozen t w db)) tt
        (mark_newest now m t w db hw ho hu))

retry_newest :
    (t : Transaction) (db : Db)
    → is_failed t.status ≡ true
    → leb 3 (count_or_zero t.metadata.retry_count) ≡ false
    → retry_failed_transaction t.id (with_newest t db) ≡ (ok true, with_newest (reset t) db)
unfolding retry_failed_transaction get_transaction ◌>>=◌ ◌>>◌
retry_newest t db hf hl = ground arith

unfreeze-frozen : (x : ℤ) (w : Wallet) → unfreeze_amount x (frozen x w) ≡ w
unfolding unfreeze_amount
unfreeze-frozen x w = rw (sub_add w.available_balance x) refl

-- A pending payment out of a wallet that covers it, which fails, is retried and fails again:
-- both failures unfreeze the amount, which only the first payment froze, so the wallet's available
-- balance ends higher by the amount, and nothing else of the wallets has changed.
pub handle_transaction_failure-retry_failed_transaction :
    (now : ℕ) (p : PaymentProvider) (m m' : String) (x : ℤ) (type : TransactionType) (w : Wallet)
    (db : Db)
    → find_first (wallet_is w.id) db.wallets ≡ some w
    → is_outgoing type ≡ true
    → leb_ℤ x (pos 0) ≡ false
    → has_sufficient_balance w x ≡ true
    → let (r, db₁) = create_pending_transaction w.id x type true db in
      let (r', db₂) = handle_transaction_failure now p m db.next_id db₁ in
      let (again, db₃) = retry_failed_transaction db.next_id db₂ in
      let (r'', db₄) = handle_transaction_failure now p m' db.next_id db₃ in
      (again ≡ ok true)
      × (db₃.wallets ≡ db.wallets)
      × (db₄.wallets
          ≡ update_first
              (wallet_is w.id)
              (λ _. record w { available_balance = w.available_balance +ℤ x })
              db.wallets)
unfolding unfreeze_amount
handle_transaction_failure-retry_failed_transaction now p m m' x type w db hw ho hx hs =
    let t = record (pending_row w w.id type x) { id = db.next_id } in
    let failed_once = failed_row now m t in
    let base = record db { next_id = db.next_id + 1 } in
    let froze = record base {
      wallets = update_first (wallet_is w.id) (λ _. frozen x w) db.wallets;
    } in
    let first =
      fail_newest now p m t (frozen x w) froze
        (find_first-update_self (wallet_is w.id) w (frozen x w) db.wallets hw (same_number w.id)) ho
        refl in
    let again = retry_newest failed_once (unfrozen t (frozen x w) froze) refl refl in
    let back : (unfrozen t (frozen x w) froze).wallets ≡ db.wallets =
      rw (unfreeze-frozen x w)
        (update_first_back (wallet_is w.id) w (frozen x w) db.wallets hw (same_number w.id)) in
    let second =
      fail_newest now p m' (reset failed_once) w (unfrozen t (frozen x w) froze)
        (ap (find_first (wallet_is w.id)) back ∙ hw) ho refl in
    let added = ap (update_first (wallet_is w.id) (λ _. unfreeze_amount x w)) back in
    rw (create_pending_ok x type w db hw ho hx hs, first, again, second) (refl, back, added)
