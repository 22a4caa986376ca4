-- ===== src/Models/Agreements.antt =====
-- Service level agreements (sthrip/db/models.py). `deliverables` is a JSON list, kept as its text.
use sthrip.Base.{ℕ, Option, String, Bool, true, false}
use sthrip.Base.Int.{ℤ}

pub data SlaStatus : Type 0 where
  proposed accepted active delivered completed breached disputed : SlaStatus

pub record SlaTemplate : Type 0 where
  pub provider_id : ℕ
  pub name : String
  pub service_description : String
  pub deliverables : String
  pub response_time_secs : ℕ
  pub delivery_time_secs : ℕ
  pub base_price : ℤ
  pub currency : ℕ
  pub penalty_percent : ℕ
  pub is_active : Bool
  pub created_at : ℕ

pub record SlaContract : Type 0 where
  pub provider_id : ℕ
  pub consumer_id : ℕ
  pub template_id : Option ℕ
  pub service_description : String
  pub deliverables : String
  pub response_time_secs : ℕ
  pub delivery_time_secs : ℕ
  pub price : ℤ
  pub currency : ℕ
  pub penalty_percent : ℕ
  pub state : SlaStatus
  pub escrow_deal_id : Option ℕ
  pub started_at : Option ℕ
  pub delivered_at : Option ℕ
  pub response_time_actual : Option ℤ
  pub delivery_time_actual : Option ℤ
  pub sla_met : Option Bool
  pub result_hash : Option String
  pub created_at : ℕ

-- `==` on the statuses.
abbrev pub is_proposed : SlaStatus → Bool
is_proposed SlaStatus.proposed = true
is_proposed _ = false

abbrev pub is_accepted : SlaStatus → Bool
is_accepted SlaStatus.accepted = true
is_accepted _ = false

abbrev pub is_active_contract : SlaStatus → Bool
is_active_contract SlaStatus.active = true
is_active_contract _ = false

abbrev pub is_delivered : SlaStatus → Bool
is_delivered SlaStatus.delivered = true
is_delivered _ = false
