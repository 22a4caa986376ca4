-- ===== src/Models/Escrow.antt =====
-- Escrow deals (`EscrowDeal` in sthrip/db/models.py).
use sthrip.Base.{ℕ, Option, String, Bool, true, false}
use sthrip.Base.Int.{ℤ}
use sthrip.Base.Table.{Table}
use sthrip.Models.Milestone.{EscrowMilestone}

pub data EscrowStatus : Type 0 where
  created accepted delivered completed cancelled expired partially_completed : EscrowStatus

-- `fee_percent` counts ten-thousandths. `milestones` is the relationship of that name: the rows of
-- the deal's milestones, keyed and ordered by sequence.
pub record EscrowDeal : Type 0 where
  pub deal_hash : String
  pub buyer_id : ℕ
  pub seller_id : ℕ
  pub amount : ℤ
  pub token : Option ℕ
  pub description : String
  pub fee_percent : ℕ
  pub fee_amount : ℤ
  pub accept_timeout_hours : ℕ
  pub delivery_timeout_hours : ℕ
  pub review_timeout_hours : ℕ
  pub accept_deadline : Option ℕ
  pub delivery_deadline : Option ℕ
  pub review_deadline : Option ℕ
  pub release_amount : Option ℤ
  pub is_multi_milestone : Bool
  pub milestone_count : ℕ
  pub current_milestone : ℕ
  pub total_released : ℤ
  pub total_fees : ℤ
  pub status : EscrowStatus
  pub created_at : ℕ
  pub accepted_at : Option ℕ
  pub delivered_at : Option ℕ
  pub completed_at : Option ℕ
  pub cancelled_at : Option ℕ
  pub expires_at : Option ℕ
  pub milestones : Table EscrowMilestone

-- `==` on the statuses.
abbrev pub is_created : EscrowStatus → Bool
is_created EscrowStatus.created = true
is_created _ = false

abbrev pub is_accepted : EscrowStatus → Bool
is_accepted EscrowStatus.accepted = true
is_accepted _ = false

abbrev pub is_delivered : EscrowStatus → Bool
is_delivered EscrowStatus.delivered = true
is_delivered _ = false
