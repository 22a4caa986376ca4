-- ===== src/Channel/Repo.antt =====
-- The part of `ChannelRepository` that the service calls (sthrip/db/channel_repo.py).
use sthrip.Base.{
  ℕ, ◌+◌, String, Option, none, some, List, [], ◌∷◌, Bool, false, ◌||◌, ◌&&◌, ◌==◌, leb,
  if◌then◌else◌, is_some,
}
use sthrip.Base.Int.{ℤ, pos, ◌+ℤ◌, ltb_ℤ, ◌==ℤ◌}
use sthrip.Base.Table.{Table, find, update_where}
use sthrip.Base.Action.{Action, ok, err, integrity_error, gets}
use sthrip.Models.Channel.{
  PaymentChannel, ChannelUpdate, ChannelStatus, is_open, is_closing, is_settled,
}
use sthrip.Models.Database.{Db}

-- The balances of both sides, signed by both.
pub record Signed : Type 0 where
  pub nonce : ℤ
  pub balance_a : ℤ
  pub balance_b : ℤ
  pub sig_a : String
  pub sig_b : String

abbrev pub new_channel : ℕ → String → ℕ → ℕ → ℤ → ℤ → ℕ → PaymentChannel
new_channel now hash a b deposit_a deposit_b period = record {
  channel_hash = hash;
  agent_a_id = a;
  agent_b_id = b;
  capacity = deposit_a +ℤ deposit_b;
  status = ChannelStatus.open_;
  deposit_a = deposit_a;
  deposit_b = deposit_b;
  balance_a = deposit_a;
  balance_b = deposit_b;
  nonce = pos 0;
  last_update_sig_a = none;
  last_update_sig_b = none;
  settlement_period = period;
  settled_at = none;
  closes_at = none;
  closed_at = none;
  created_at = now;
}

unfoldable pub open_with_deposit : ℕ → ℕ → String → ℕ → ℕ → ℤ → ℤ → ℕ → Action Db PaymentChannel
open_with_deposit now id hash a b deposit_a deposit_b period db =
    let channel = new_channel now hash a b deposit_a deposit_b period in
    if is_some (find id db.channels)
    then (err integrity_error, db)
    else (ok channel, record db { channels = (id, channel) ∷ db.channels })

abbrev pub get_by_id : ℕ → Action Db (Option PaymentChannel)
get_by_id id = gets (λ db. find id db.channels)

-- `uq_channel_update_nonce`
unfoldable pub has_update : ℕ → ℤ → List ChannelUpdate → Bool
has_update id nonce [] = false
has_update id nonce (u ∷ us) = (u.channel_id == id && u.nonce ==ℤ nonce) || has_update id nonce us

abbrev pub new_update : ℕ → Signed → ChannelUpdate
new_update id s = record {
  channel_id = id;
  nonce = s.nonce;
  balance_a = s.balance_a;
  balance_b = s.balance_b;
  signature_a = s.sig_a;
  signature_b = s.sig_b;
}

unfoldable pub submit_update : ℕ → Signed → Action Db ChannelUpdate
submit_update id s db =
    if has_update id s.nonce db.updates
    then (err integrity_error, db)
    else (ok (new_update id s), record db { updates = new_update id s ∷ db.updates })

-- `max(current_nonce, latest.nonce)` over the updates of one channel, from `n` on.
unfoldable pub latest_nonce : ℕ → ℤ → List ChannelUpdate → ℤ
latest_nonce id n [] = n
latest_nonce id n (u ∷ us) =
    latest_nonce id (if u.channel_id == id && ltb_ℤ n u.nonce then u.nonce else n) us

abbrev pub update_channel :
    ℕ → (PaymentChannel → Bool) → (PaymentChannel → PaymentChannel) → Action Db ℕ
update_channel id p f db =
    let (rows, channels) = update_where id p f db.channels in
    (ok rows, record db { channels = channels })

abbrev pub closing_channel : ℕ → Signed → PaymentChannel → PaymentChannel
closing_channel now s c = record c {
  status = ChannelStatus.closing;
  nonce = s.nonce;
  balance_a = s.balance_a;
  balance_b = s.balance_b;
  last_update_sig_a = some s.sig_a;
  last_update_sig_b = some s.sig_b;
  closes_at = some (now + c.settlement_period);
}

unfoldable pub initiate_settlement : ℕ → ℕ → Signed → Action Db ℕ
initiate_settlement now id s = update_channel id (λ c. is_open c.status) (closing_channel now s)

abbrev pub settled_channel : ℕ → PaymentChannel → PaymentChannel
settled_channel now c = record c { status = ChannelStatus.settled; settled_at = some now }

unfoldable pub settle : ℕ → ℕ → Action Db ℕ
settle now id = update_channel id (λ c. is_closing c.status) (settled_channel now)

abbrev pub closed_channel : ℕ → PaymentChannel → PaymentChannel
closed_channel now c = record c { status = ChannelStatus.closed; closed_at = some now }

unfoldable pub finalize_close : ℕ → ℕ → Action Db ℕ
finalize_close now id = update_channel id (λ c. is_settled c.status) (closed_channel now)

abbrev pub disputed_channel : Signed → PaymentChannel → PaymentChannel
disputed_channel s c = record c {
  nonce = s.nonce;
  balance_a = s.balance_a;
  balance_b = s.balance_b;
  last_update_sig_a = some s.sig_a;
  last_update_sig_b = some s.sig_b;
}

unfoldable pub dispute : ℕ → Signed → Action Db ℕ
dispute id s = update_channel id (λ c. is_closing c.status) (disputed_channel s)

abbrev pub is_past : ℕ → Option ℕ → Bool
is_past now none = false
is_past now (some at) = leb at now

-- The keys of the rows that the query of `get_channels_ready_to_settle` finds.
unfoldable pub get_channels_ready_to_settle : ℕ → Table PaymentChannel → List ℕ
get_channels_ready_to_settle now [] = []
get_channels_ready_to_settle now ((id, c) ∷ channels) =
    if is_closing c.status && is_past now c.closes_at
    then id ∷ get_channels_ready_to_settle now channels
    else get_channels_ready_to_settle now channels
