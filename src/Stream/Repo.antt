-- ===== src/Stream/Repo.antt =====
-- `PaymentStreamRepository` (sthrip/db/stream_repo.py).
use sthrip.Base.{ℕ, Option, none, some, ◌∷◌, Bool, not, ◌||◌, if◌then◌else◌, is_some}
use sthrip.Base.Int.{ℤ, pos, leb_ℤ}
use sthrip.Base.Table.{find, update_where}
use sthrip.Base.Action.{Action, ok, err, integrity_error, gets}
use sthrip.Models.Payments.{PaymentStream, StreamStatus, is_active_stream, is_paused, is_stopped}
use sthrip.Models.Database.{Db}

abbrev pub new_stream : ℕ → ℕ → ℕ → ℕ → ℤ → PaymentStream
new_stream now channel from_agent to_agent rate = record {
  channel_id = channel;
  from_agent_id = from_agent;
  to_agent_id = to_agent;
  rate_per_second = rate;
  started_at = some now;
  paused_at = none;
  stopped_at = none;
  total_streamed = pos 0;
  state = StreamStatus.active;
}

-- A rate that is not positive breaks `ck_stream_rate_positive`.
unfoldable pub create : ℕ → ℕ → ℕ → ℕ → ℕ → ℤ → Action Db PaymentStream
create now id channel from_agent to_agent rate db =
    let stream = new_stream now channel from_agent to_agent rate in
    if is_some (find id db.streams) || leb_ℤ rate (pos 0)
    then (err integrity_error, db)
    else (ok stream, record db { streams = (id, stream) ∷ db.streams })

abbrev pub get_by_id : ℕ → Action Db (Option PaymentStream)
get_by_id id = gets (λ db. find id db.streams)

abbrev pub update_stream :
    ℕ → (PaymentStream → Bool) → (PaymentStream → PaymentStream) → Action Db ℕ
update_stream id p f db =
    let (rows, streams) = update_where id p f db.streams in
    (ok rows, record db { streams = streams })

abbrev pub paused_stream : ℕ → PaymentStream → PaymentStream
paused_stream now p = record p { state = StreamStatus.paused; paused_at = some now }

unfoldable pub pause : ℕ → ℕ → Action Db ℕ
pause now id = update_stream id (λ p. is_active_stream p.state) (paused_stream now)

abbrev pub resumed_stream : PaymentStream → PaymentStream
resumed_stream p = record p { state = StreamStatus.active; paused_at = none }

unfoldable pub resume : ℕ → Action Db ℕ
resume id = update_stream id (λ p. is_paused p.state) resumed_stream

abbrev pub stopped_stream : ℕ → ℤ → PaymentStream → PaymentStream
stopped_stream now total p = record p {
  state = StreamStatus.stopped;
  stopped_at = some now;
  total_streamed = total;
}

unfoldable pub stop : ℕ → ℕ → ℤ → Action Db ℕ
stop now id total = update_stream id (λ p. not (is_stopped p.state)) (stopped_stream now total)
