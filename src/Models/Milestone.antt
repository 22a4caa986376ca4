-- ===== src/Models/Milestone.antt =====
-- Milestones of an escrow deal (`EscrowMilestone` in sthrip/db/models.py).
use sthrip.Base.{ℕ, Option, String, Bool, true, false}
use sthrip.Base.Int.{ℤ}

pub data MilestoneStatus : Type 0 where
  pending active delivered completed expired cancelled : MilestoneStatus

-- The row's key is the deal and the sequence number (`uq_milestone_sequence`).
pub record EscrowMilestone : Type 0 where
  pub description : String
  pub amount : ℤ
  pub delivery_timeout_hours : ℕ
  pub review_timeout_hours : ℕ
  pub delivery_deadline : Option ℕ
  pub review_deadline : Option ℕ
  pub release_amount : Option ℤ
  pub fee_amount : ℤ
  pub status : MilestoneStatus
  pub activated_at : Option ℕ
  pub delivered_at : Option ℕ
  pub completed_at : Option ℕ
  pub cancelled_at : Option ℕ
  pub expires_at : Option ℕ

-- `==` on the statuses.
abbrev pub is_pending : MilestoneStatus → Bool
is_pending MilestoneStatus.pending = true
is_pending _ = false

abbrev pub is_active : MilestoneStatus → Bool
is_active MilestoneStatus.active = true
is_active _ = false

abbrev pub is_delivered : MilestoneStatus → Bool
is_delivered MilestoneStatus.delivered = true
is_delivered _ = false

abbrev pub is_completed : MilestoneStatus → Bool
is_completed MilestoneStatus.completed = true
is_completed _ = false
