-- ===== src/Models/Swaps.antt =====
-- Orders for swaps between chains (sthrip/db/models.py).
use sthrip.Base.{ℕ, Option, String, Bool, true, false}
use sthrip.Base.Int.{ℤ}

pub data SwapStatus : Type 0 where
  created locked completed refunded expired : SwapStatus

-- A decimal number: `digits` over ten to the power `places`.
pub record Rate : Type 0 where
  pub digits : ℕ
  pub places : ℕ

pub record SwapOrder : Type 0 where
  pub from_agent_id : ℕ
  pub from_currency : ℕ
  pub from_amount : ℤ
  pub to_currency : ℕ
  pub to_amount : ℤ
  pub exchange_rate : Rate
  pub fee_amount : ℤ
  pub state : SwapStatus
  pub htlc_hash : String
  pub htlc_secret : Option String
  pub btc_tx_hash : Option String
  pub xmr_tx_hash : Option String
  pub lock_expiry : ℕ
  pub created_at : ℕ
  pub external_order_id : Option String
  pub deposit_address : Option String
  pub provider_name : Option String

-- `==` on the statuses.
abbrev pub is_created : SwapStatus → Bool
is_created SwapStatus.created = true
is_created _ = false

abbrev pub is_locked : SwapStatus → Bool
is_locked SwapStatus.locked = true
is_locked _ = false

abbrev pub is_completed : SwapStatus → Bool
is_completed SwapStatus.completed = true
is_completed _ = false
