-- ===== src/Models/Payments.antt =====
-- Conditional payments, group payments and payment streams (sthrip/db/models.py).
use sthrip.Base.{ℕ, Option, String, List, Bool, true, false}
use sthrip.Base.Int.{ℤ}
use sthrip.Base.Table.{Table}
use sthrip.Models.Escrow.{EscrowStatus}

pub data ConditionalPaymentState : Type 0 where
  pending triggered executed expired cancelled : ConditionalPaymentState

pub data ConditionType : Type 0 where
  time_lock escrow_completed balance_threshold webhook other : ConditionType

-- What `UUID` makes of a JSON value: of one that is neither a text nor null, an AttributeError.
pub data ParsedId : Type 0 where
  known : ℕ → ParsedId
  malformed not_text : ParsedId

-- The JSON of `condition_config`: the fields that it has, and how the code reads their values,
-- `none` where reading raises what the task catches. `release_at` is read by
-- `datetime.fromisoformat`, the two ids by `UUID`, the threshold by `Decimal`; a status that is none of
-- the names is none of the statuses.
pub record ConditionConfig : Type 0 where
  pub fields : List String
  pub release_at : Option ℕ
  pub escrow_id : ParsedId
  pub required_status : Option EscrowStatus
  pub agent_id : ParsedId
  pub threshold : Option ℤ

pub record ConditionalPayment : Type 0 where
  pub payment_hash : String
  pub from_agent_id : ℕ
  pub to_agent_id : ℕ
  pub amount : ℤ
  pub currency : ℕ
  pub memo : Option String
  pub condition_type : ConditionType
  pub condition_config : ConditionConfig
  pub locked_amount : ℤ
  pub state : ConditionalPaymentState
  pub expires_at : ℕ
  pub created_at : ℕ
  pub triggered_at : Option ℕ
  pub executed_at : Option ℕ

abbrev pub is_pending : ConditionalPaymentState → Bool
is_pending ConditionalPaymentState.pending = true
is_pending _ = false

abbrev pub is_triggered : ConditionalPaymentState → Bool
is_triggered ConditionalPaymentState.triggered = true
is_triggered _ = false

pub data MultiPartyPaymentState : Type 0 where
  pending accepted completed rejected expired : MultiPartyPaymentState

-- `accepted` is NULL until the recipient has answered.
pub record MultiPartyRecipient : Type 0 where
  pub amount : ℤ
  pub accepted : Option Bool
  pub accepted_at : Option ℕ

-- `recipients` is the relationship of that name: one row for an agent (`uq_multi_party_recipient`).
pub record MultiPartyPayment : Type 0 where
  pub payment_hash : String
  pub sender_id : ℕ
  pub total_amount : ℤ
  pub currency : ℕ
  pub require_all_accept : Bool
  pub state : MultiPartyPaymentState
  pub accept_deadline : ℕ
  pub created_at : ℕ
  pub completed_at : Option ℕ
  pub recipients : Table MultiPartyRecipient

abbrev pub is_open : MultiPartyPaymentState → Bool
is_open MultiPartyPaymentState.pending = true
is_open _ = false

pub data StreamStatus : Type 0 where
  active paused stopped : StreamStatus

pub record PaymentStream : Type 0 where
  pub channel_id : ℕ
  pub from_agent_id : ℕ
  pub to_agent_id : ℕ
  pub rate_per_second : ℤ
  pub started_at : Option ℕ
  pub paused_at : Option ℕ
  pub stopped_at : Option ℕ
  pub total_streamed : ℤ
  pub state : StreamStatus

abbrev pub is_active_stream : StreamStatus → Bool
is_active_stream StreamStatus.active = true
is_active_stream _ = false

abbrev pub is_paused : StreamStatus → Bool
is_paused StreamStatus.paused = true
is_paused _ = false

abbrev pub is_stopped : StreamStatus → Bool
is_stopped StreamStatus.stopped = true
is_stopped _ = false
