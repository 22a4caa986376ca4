-- ===== src/Models/Channel.antt =====
-- Payment channels and their off-chain updates (sthrip/db/models.py).
use sthrip.Base.{ℕ, Option, String, Bool, true, false}
use sthrip.Base.Int.{ℤ}

pub data ChannelStatus : Type 0 where
  pending open_ closing settled closed disputed : ChannelStatus

pub record PaymentChannel : Type 0 where
  pub channel_hash : String
  pub agent_a_id : ℕ
  pub agent_b_id : ℕ
  pub capacity : ℤ
  pub status : ChannelStatus
  pub deposit_a : ℤ
  pub deposit_b : ℤ
  pub balance_a : ℤ
  pub balance_b : ℤ
  pub nonce : ℤ
  pub last_update_sig_a : Option String
  pub last_update_sig_b : Option String
  pub settlement_period : ℕ
  pub settled_at : Option ℕ
  pub closes_at : Option ℕ
  pub closed_at : Option ℕ
  pub created_at : ℕ

pub record ChannelUpdate : Type 0 where
  pub channel_id : ℕ
  pub nonce : ℤ
  pub balance_a : ℤ
  pub balance_b : ℤ
  pub signature_a : String
  pub signature_b : String

abbrev pub is_open : ChannelStatus → Bool
is_open ChannelStatus.open_ = true
is_open _ = false

abbrev pub is_closing : ChannelStatus → Bool
is_closing ChannelStatus.closing = true
is_closing _ = false

abbrev pub is_settled : ChannelStatus → Bool
is_settled ChannelStatus.settled = true
is_settled _ = false
