-- ===== src/Models/Parties.antt =====
-- Agents, their reputations and balances, and collected fees (sthrip/db/models.py).
use sthrip.Base.{ℕ, Option, String, Bool}
use sthrip.Base.Int.{ℤ}

-- Token names are only compared: they are numbers, and 0 is XMR.
abbrev pub xmr : ℕ
xmr = 0

pub data AgentTier : Type 0 where
  free verified premium enterprise : AgentTier

pub record Agent : Type 0 where
  pub agent_name : String
  pub tier : AgentTier
  pub is_active : Bool
  pub created_at : Option ℕ

pub record AgentReputation : Type 0 where
  pub trust_score : ℤ
  pub total_transactions : ℕ
  pub calculated_at : Option ℕ

-- The amounts of a row of `agent_balances`; the row's key is the agent and the token.
pub record AgentBalance : Type 0 where
  pub available : ℤ
  pub pending : ℤ
  pub total_deposited : ℤ
  pub total_withdrawn : ℤ
  pub deposit_address : Option String
  pub updated_at : ℕ

pub data FeeCollectionStatus : Type 0 where
  pending collected withdrawn : FeeCollectionStatus

pub data FeeSource : Type 0 where
  escrow channel fee_collection : FeeSource

pub record FeeCollection : Type 0 where
  pub source_type : FeeSource
  pub source_id : ℕ
  pub amount : ℤ
  pub token : ℕ
  pub status : FeeCollectionStatus
  pub payer_agent_id : Option ℕ
  pub amount_piconero : Option ℕ
  pub rate_applied_bps : Option ℕ
  pub transaction_ref : Option String
  pub collected_at : Option ℕ

-- A row of `agent_monthly_stats`; its key is the agent and the month.
pub record AgentMonthlyStats : Type 0 where
  pub transaction_count : ℕ
  pub last_updated : ℕ

-- What a call leaves for others: a row of the audit log, or a queued webhook event.
pub data Entry : Type 0 where
  audit : String → Option ℕ → Option ℕ → Entry
  webhook : ℕ → String → Entry
