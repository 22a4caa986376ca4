-- ===== src/Models/Transfers.antt =====
-- Transactions and recurring payments (sthrip/db/models.py).
use sthrip.Base.{ℕ, Option, String, Bool}
use sthrip.Base.Int.{ℤ}

pub data PaymentType : Type 0 where
  p2p hub_routing : PaymentType
  deposit withdrawal : PaymentType
  escrow_deposit escrow_release : PaymentType
  channel_open channel_close fee_collection : PaymentType

pub data TransactionStatus : Type 0 where
  pending confirmed failed orphaned : TransactionStatus

-- The row's key is its UUID; that `tx_hash` is unique is checked when a row is stored.
pub record Transaction : Type 0 where
  pub tx_hash : String
  pub network : String
  pub token : ℕ
  pub from_agent_id : Option ℕ
  pub to_agent_id : Option ℕ
  pub amount : ℤ
  pub fee : ℤ
  pub fee_collected : ℤ
  pub payment_type : PaymentType
  pub status : TransactionStatus
  pub block_number : Option ℕ
  pub confirmations : ℕ
  pub memo : Option String
  pub confirmed_at : Option ℕ
  pub created_at : ℕ

pub data RecurringInterval : Type 0 where
  hourly daily weekly monthly : RecurringInterval

pub record RecurringPayment : Type 0 where
  pub from_agent_id : ℕ
  pub to_agent_id : ℕ
  pub amount : ℤ
  pub interval : RecurringInterval
  pub next_payment_at : ℕ
  pub last_payment_at : Option ℕ
  pub total_paid : ℤ
  pub max_payments : Option ℕ
  pub payments_made : ℕ
  pub is_active : Bool
  pub created_at : ℕ
  pub cancelled_at : Option ℕ
