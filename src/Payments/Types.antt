-- ===== src/Payments/Types.antt =====
-- The rows of core/common/models/payments/{wallet,transaction,bill}.py and their choices.
-- An identifier (a UUID) is a number that is only compared, an instant is a number, an amount is
-- an integer of hundredths (the columns have two decimal places). Texts that no branch reads
-- (titles, descriptions, log lines) and columns that no operation uses are left out.
use Prim.Native.String.{String}
use clustr_be.Base.{ℕ, Bool, Option, List, true, false}
use clustr_be.Base.Int.{ℤ}

pub data WalletStatus : Type 0 where
  active suspended closed : WalletStatus

pub data TransactionType : Type 0 where
  deposit withdrawal payment refund transfer bill_payment : TransactionType

pub data TransactionStatus : Type 0 where
  pending processing completed failed cancelled refunded : TransactionStatus

pub data BillCategory : Type 0 where
  cluster_managed user_managed : BillCategory

pub data BillStatus : Type 0 where
  draft pending_acknowledgment acknowledged disputed pending overdue paid : BillStatus
  partially_paid cancelled : BillStatus

pub data DisputeStatus : Type 0 where
  open_dispute under_review resolved rejected withdrawn : DisputeStatus

pub record Wallet : Type 0 where
  pub id : ℕ
  pub cluster : ℕ
  pub user_id : ℕ
  pub balance : ℤ
  pub available_balance : ℤ
  pub currency : String
  pub status : WalletStatus
  pub last_transaction_at : Option ℕ

-- The keys that the code writes into `Transaction.metadata`. The three keys of a cluster credit
-- are written together; they hold the amount and the identifier of the credit. So are those of a
-- payment to a utility: its provider, the customer, and the code of the provider.
pub record Metadata : Type 0 where
  pub bill_id : Option ℕ
  pub payment_method : Option String
  pub source : Option String
  pub original_transaction_id : Option ℕ
  pub cluster_credit : Option (ℤ × ℕ)
  pub retry_count : Option ℕ
  pub utility : Option (ℕ × (String × String))

-- An idempotency key is a number, and 0 is the empty text.
pub record Transaction : Type 0 where
  pub id : ℕ
  pub cluster : ℕ
  pub wallet : ℕ
  pub bill : Option ℕ
  pub type : TransactionType
  pub amount : ℤ
  pub currency : String
  pub status : TransactionStatus
  pub provider_response : Option String
  pub metadata : Metadata
  pub idempotency_key : Option ℕ
  pub processed_at : Option ℕ
  pub failed_at : Option ℕ
  pub failure_reason : Option String
  pub created_by : Option ℕ

pub record Bill : Type 0 where
  pub id : ℕ
  pub cluster : ℕ
  pub user_id : Option ℕ
  pub category : BillCategory
  pub utility_provider : Option ℕ
  pub amount : ℤ
  pub currency : String
  pub acknowledged_by : List ℕ
  pub allow_payment_after_due : Bool
  pub due_date : ℕ
  pub paid_amount : ℤ
  pub paid_at : Option ℕ
  pub payment_transaction : Option ℕ

pub record BillDispute : Type 0 where
  pub id : ℕ
  pub cluster : ℕ
  pub bill : ℕ
  pub disputed_by : ℕ
  pub reason : String
  pub status : DisputeStatus
  pub admin_notes : Option String
  pub resolved_by : Option ℕ
  pub resolved_at : Option ℕ
  pub resolution_notes : Option String

pub record User : Type 0 where
  pub id : ℕ

abbrev pub is_cluster_managed : BillCategory → Bool
is_cluster_managed cluster_managed = true
is_cluster_managed user_managed = false

-- `type in [WITHDRAWAL, PAYMENT, BILL_PAYMENT]`, the types that take money out of a wallet.
abbrev pub is_outgoing : TransactionType → Bool
is_outgoing withdrawal = true
is_outgoing payment = true
is_outgoing bill_payment = true
is_outgoing _ = false

abbrev pub is_completed : TransactionStatus → Bool
is_completed completed = true
is_completed _ = false

-- `status in [PENDING, PROCESSING]`
abbrev pub is_unsettled : TransactionStatus → Bool
is_unsettled pending = true
is_unsettled processing = true
is_unsettled _ = false

-- `status in [OPEN, UNDER_REVIEW]`
abbrev pub is_active_status : DisputeStatus → Bool
is_active_status open_dispute = true
is_active_status under_review = true
is_active_status _ = false
