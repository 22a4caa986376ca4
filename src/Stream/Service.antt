-- ===== src/Stream/Service.antt =====
-- The methods of `StreamService` (sthrip/services/stream_service.py).
use sthrip.Base.{ℕ, ◌-◌, Option, some, not, ◌&&◌, ◌==◌, Bool}
use sthrip.Base.Int.{ℤ, pos, ltb_ℤ, scale}
use sthrip.Base.Table.{find}
use sthrip.Base.Action.{
  Action, pure, gets, or_raise, raise_if, ◌>>=◌, ◌>>◌, value_error, lookup_error, permission_error,
}
use sthrip.Models.Channel.{is_open}
use sthrip.Models.Payments.{PaymentStream, StreamStatus, is_stopped}
use sthrip.Models.Database.{Db}
use sthrip.Stream.Repo
use sthrip.Stream.Repo.{get_by_id}

-- `rate * max(0, (until - started).total_seconds())`
abbrev pub rate_for : ℤ → Option ℕ → Option ℕ → ℤ
rate_for rate (some started) (some until) = scale rate (until - started) 1
rate_for rate _ _ = pos 0

-- `_calculate_accrued` at the time `now`.
abbrev pub accrued_in : ℕ → StreamStatus → PaymentStream → ℤ
accrued_in now StreamStatus.stopped p = p.total_streamed
accrued_in now StreamStatus.paused p = rate_for p.rate_per_second p.started_at p.paused_at
accrued_in now StreamStatus.active p = rate_for p.rate_per_second p.started_at (some now)

unfoldable pub calculate_accrued : ℕ → PaymentStream → ℤ
calculate_accrued now p = accrued_in now p.state p

unfoldable pub start_stream : ℕ → ℕ → ℕ → ℕ → ℤ → Action Db PaymentStream
unfolding Repo.create scale
start_stream now id channel_id from_agent rate = do
  channel ← or_raise (← gets (λ (db : Db). find channel_id db.channels)) lookup_error
  raise_if (not (is_open channel.status)) value_error
  raise_if (not (channel.agent_a_id == from_agent)) permission_error
  raise_if (ltb_ℤ channel.balance_a (scale rate 60 1)) value_error
  Repo.create now id channel_id from_agent channel.agent_b_id rate

unfoldable pub get_accrued : ℕ → ℕ → Action Db ℤ
get_accrued now id = do
  stream ← or_raise (← get_by_id id) lookup_error
  pure (calculate_accrued now stream)

-- `_verify_participant` raises.
abbrev pub is_stranger : ℕ → PaymentStream → Bool
is_stranger agent p = not (p.from_agent_id == agent) && not (p.to_agent_id == agent)

unfoldable pub pause_stream : ℕ → ℕ → ℕ → Action Db PaymentStream
unfolding Repo.pause
pause_stream now id agent = do
  stream ← or_raise (← get_by_id id) lookup_error
  raise_if (is_stranger agent stream) permission_error
  rows ← Repo.pause now id
  raise_if (rows == 0) value_error
  or_raise (← get_by_id id) lookup_error

unfoldable pub resume_stream : ℕ → ℕ → Action Db PaymentStream
unfolding Repo.resume
resume_stream id agent = do
  stream ← or_raise (← get_by_id id) lookup_error
  raise_if (is_stranger agent stream) permission_error
  rows ← Repo.resume id
  raise_if (rows == 0) value_error
  or_raise (← get_by_id id) lookup_error

unfoldable pub stop_stream : ℕ → ℕ → ℕ → Action Db PaymentStream
unfolding Repo.stop
stop_stream now id agent = do
  stream ← or_raise (← get_by_id id) lookup_error
  raise_if (is_stranger agent stream) permission_error
  raise_if (is_stopped stream.state) value_error
  rows ← Repo.stop now id (calculate_accrued now stream)
  raise_if (rows == 0) value_error
  or_raise (← get_by_id id) lookup_error
