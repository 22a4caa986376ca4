-- ===== src/Channel/Service.antt =====
-- The methods of `ChannelService` (sthrip/services/channel_service.py).
use sthrip.Base.{
  ℕ, ◌+◌, ◌*◌, ◌/◌, ◌%◌, String, Option, none, some, List, [], ◌∷◌, Bool, true, false, not, ◌||◌,
  ◌&&◌, ◌==◌, ltb, if◌then◌else◌,
}
use sthrip.Base.Int.{ℤ, pos, ◌+ℤ◌, ◌-ℤ◌, ltb_ℤ, leb_ℤ, ◌==ℤ◌, abs}
use sthrip.Base.Action.{
  Action, pure, gets, or_raise, raise_if, when, ◌>>=◌, ◌>>◌, value_error, lookup_error,
  permission_error, runtime_error,
}
use sthrip.Models.Parties.{xmr, FeeSource}
use sthrip.Models.Channel.{PaymentChannel, ChannelUpdate, is_open, is_closing, is_settled}
use sthrip.Models.Database.{Db, audit_log, audit_log_with_new_values, queue_webhook}
use sthrip.Ledger.Rows.{credit_positive, deduct}
use sthrip.Fees.{record_fee}
use sthrip.Channel.Repo
use sthrip.Channel.Repo.{Signed, get_by_id}

-- `_verify_participant`
abbrev pub is_stranger : ℕ → PaymentChannel → Bool
is_stranger agent c = not (c.agent_a_id == agent) && not (c.agent_b_id == agent)

-- `if deposit > Decimal("0"): bal_repo.deduct(…)`
abbrev pub deduct_positive : ℕ → ℕ → ℤ → Action Db (Unit {0})
deduct_positive now agent x = when (ltb_ℤ (pos 0) x) (deduct now agent x xmr)

unfoldable pub open_channel : ℕ → ℕ → String → ℕ → ℕ → ℤ → ℤ → ℕ → Action Db PaymentChannel
unfolding deduct Repo.open_with_deposit
open_channel now id hash a b deposit_a deposit_b period = do
  raise_if (a == b) value_error
  raise_if (leb_ℤ deposit_a (pos 0) && leb_ℤ deposit_b (pos 0)) value_error
  deduct_positive now a deposit_a
  deduct_positive now b deposit_b
  channel ← Repo.open_with_deposit now id hash a b deposit_a deposit_b period
  audit_log_with_new_values
  queue_webhook b "channel.opened"
  pure channel

unfoldable pub submit_update : ℕ → ℕ → Signed → Action Db ChannelUpdate
unfolding Repo.submit_update
submit_update id agent s = do
  channel ← or_raise (← get_by_id id) lookup_error
  raise_if (is_stranger agent channel) permission_error
  current ← gets (λ (db : Db). Repo.latest_nonce id channel.nonce db.updates)
  raise_if (leb_ℤ s.nonce current) value_error
  raise_if (not (s.balance_a +ℤ s.balance_b ==ℤ channel.deposit_a +ℤ channel.deposit_b)) value_error
  Repo.submit_update id s

abbrev pub is_empty : String → Bool
is_empty String.[] = true
is_empty _ = false

-- `quantize(Decimal("0.00000001"))` of units of 10^-16: to the nearest, a half to the even side.
unfoldable pub quantize : ℕ → ℕ
quantize n =
    let q = n / 100000000 in
    let r = n % 100000000 in
    let up = ltb 50000000 r || (r == 50000000 && q % 2 == 1) in
    100000000 * (if up then q + 1 else q)

-- One percent of the net transfer.
unfoldable pub settlement_fee : PaymentChannel → ℤ → ℤ
unfolding quantize
settlement_fee c balance_a = pos (quantize (abs (balance_a -ℤ c.deposit_a) / 100))

unfoldable pub settle : ℕ → ℕ → ℕ → Signed → Action Db PaymentChannel
unfolding Repo.initiate_settlement record_fee
settle now id agent s = do
  raise_if (is_empty s.sig_a || is_empty s.sig_b) value_error
  channel ← or_raise (← get_by_id id) lookup_error
  raise_if (is_stranger agent channel) permission_error
  raise_if (not (is_open channel.status)) value_error
  rows ← Repo.initiate_settlement now id s
  raise_if (rows == 0) value_error
  record_fee FeeSource.channel id xmr (settlement_fee channel s.balance_a)
  fresh ← or_raise (← get_by_id id) runtime_error
  audit_log_with_new_values
  pure fresh

-- `closes_at > now`
abbrev pub still_runs : ℕ → Option ℕ → Bool
still_runs now none = false
still_runs now (some at) = ltb now at

abbrev pub auto_settle : ℕ → ℕ → PaymentChannel → Action Db (Unit {0})
auto_settle now id c =
    if is_closing c.status
    then (do raise_if (still_runs now c.closes_at) value_error; Repo.settle now id; pure tt)
    else pure tt

unfoldable pub close : ℕ → ℕ → ℕ → Action Db PaymentChannel
unfolding Repo.settle credit_positive Repo.finalize_close
close now id agent = do
  first ← or_raise (← get_by_id id) lookup_error
  raise_if (is_stranger agent first) permission_error
  auto_settle now id first
  channel ← or_raise (← get_by_id id) runtime_error
  raise_if (not (is_settled channel.status)) value_error
  credit_positive now channel.agent_a_id channel.balance_a xmr
  credit_positive now channel.agent_b_id channel.balance_b xmr
  rows ← Repo.finalize_close now id
  raise_if (rows == 0) value_error
  fresh ← or_raise (← get_by_id id) runtime_error
  audit_log "channel.closed" (some agent) (some id)
  queue_webhook (if agent == fresh.agent_a_id then fresh.agent_b_id else fresh.agent_a_id)
      "channel.closed"
  pure fresh

unfoldable pub dispute : ℕ → ℕ → Signed → Action Db PaymentChannel
unfolding Repo.dispute
dispute id agent s = do
  channel ← or_raise (← get_by_id id) lookup_error
  raise_if (is_stranger agent channel) permission_error
  raise_if (not (is_closing channel.status)) value_error
  raise_if (leb_ℤ s.nonce channel.nonce) value_error
  rows ← Repo.dispute id s
  raise_if (rows == 0) value_error
  fresh ← or_raise (← get_by_id id) runtime_error
  audit_log_with_new_values
  pure fresh

unfoldable pub get_channel : ℕ → ℕ → Action Db PaymentChannel
get_channel id agent = do
  channel ← or_raise (← get_by_id id) lookup_error
  raise_if (is_stranger agent channel) permission_error
  pure channel

unfoldable pub settle_all : ℕ → List ℕ → Action Db ℕ
unfolding Repo.settle
settle_all now [] = pure 0
settle_all now (id ∷ ids) = do
  rows ← Repo.settle now id
  count ← settle_all now ids
  pure ((if ltb 0 rows then 1 else 0) + count)

unfoldable pub auto_settle_expired : ℕ → Action Db ℕ
unfolding settle_all Repo.get_channels_ready_to_settle
auto_settle_expired now = do
  ready ← gets (λ (db : Db). Repo.get_channels_ready_to_settle now db.channels)
  settle_all now ready
