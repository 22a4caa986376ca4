-- ===== src/Stream/Runs.antt =====
-- A stream that is paused, resumed and stopped.
use sthrip.Base.{ℕ, ◌≡◌, ◌-◌, some, arith, false, refl, ◌∙◌}
use sthrip.Base.Int.{scale}
use sthrip.Base.Table.{find, set, find-set_self, set-set}
use sthrip.Base.Action.{ok, bind-ok, ◌>>◌}
use sthrip.Models.Payments.{PaymentStream, StreamStatus, is_stopped}
use sthrip.Models.Database.{Db}
use sthrip.Stream.Repo.{paused_stream, resumed_stream, stopped_stream}
use sthrip.Stream.Service.{calculate_accrued, is_stranger, pause_stream, resume_stream, stop_stream}

abbrev pub with_stream : ℕ → PaymentStream → Db → Db
with_stream id p db = record db { streams = set id p db.streams }

pause-active :
    (now id agent : ℕ) (p : PaymentStream) (db : Db)
    → find id db.streams ≡ some p
    → is_stranger agent p ≡ false
    → p.state ≡ StreamStatus.active
    → pause_stream now id agent db
      ≡ (ok (paused_stream now p), with_stream id (paused_stream now p) db)
unfolding pause_stream
pause-active now id agent p db e mine st =
    ground (arith, find-set_self id (paused_stream now p) p db.streams e)

resume-paused :
    (id agent : ℕ) (p : PaymentStream) (db : Db)
    → find id db.streams ≡ some p
    → is_stranger agent p ≡ false
    → p.state ≡ StreamStatus.paused
    → resume_stream id agent db ≡ (ok (resumed_stream p), with_stream id (resumed_stream p) db)
unfolding resume_stream
resume-paused id agent p db e mine st =
    ground (arith, find-set_self id (resumed_stream p) p db.streams e)

stop-running :
    (now id agent : ℕ) (p : PaymentStream) (db : Db)
    → find id db.streams ≡ some p
    → is_stranger agent p ≡ false
    → is_stopped p.state ≡ false
    → let p' = stopped_stream now (calculate_accrued now p) p in
      stop_stream now id agent db ≡ (ok p', with_stream id p' db)
unfolding stop_stream
stop-running now id agent p db e mine st =
    ground (arith, find-set_self id (stopped_stream now (calculate_accrued now p) p) p db.streams e)

-- The stream at the end of a run: what it has streamed is the rate for the whole time from its
-- start, whenever it was paused and resumed.
abbrev pub stopped_after : ℕ → ℕ → PaymentStream → PaymentStream
stopped_after started now p =
    stopped_stream now (scale p.rate_per_second (now - started) 1) (resumed_stream p)

-- Where an active stream that started at `started` is paused at one time, resumed, and stopped at
-- another, each by someone who takes part, it ends with the rate times all the time since its start
-- as its total, the time of the pause included, and no other table is written: no balance moves.
pub paused_time_counts :
    (paused_at stopped_at id agent started : ℕ) (p : PaymentStream) (db : Db)
    → find id db.streams ≡ some p
    → is_stranger agent p ≡ false
    → p.state ≡ StreamStatus.active
    → p.started_at ≡ some started
    → (pause_stream paused_at id agent >> resume_stream id agent >> stop_stream stopped_at id agent)
        db
      ≡ (
        ok (stopped_after started stopped_at p),
        with_stream id (stopped_after started stopped_at p) db,
      )
unfolding calculate_accrued
paused_time_counts paused_at stopped_at id agent started p db e mine st begun =
    let p1 = paused_stream paused_at p in
    let p2 = resumed_stream p1 in
    let p3 = stopped_stream stopped_at (calculate_accrued stopped_at p2) p2 in
    let db1 = with_stream id p1 db in
    let db2 = with_stream id p2 db1 in
    let e1 : find id db1.streams ≡ some p1 = find-set_self id p1 p db.streams e in
    let e2 : find id db2.streams ≡ some p2 = find-set_self id p2 p1 db1.streams e1 in
    let first : pause_stream paused_at id agent db ≡ (ok p1, db1) =
      pause-active paused_at id agent p db e mine st in
    let both : (pause_stream paused_at id agent >> resume_stream id agent) db ≡ (ok p2, db2) =
      bind-ok (pause_stream paused_at id agent) (λ _. resume_stream id agent) db p1 db1 first
      ∙ resume-paused id agent p1 db1 e1 mine refl in
    let last = stopped_after started stopped_at p in
    let total : p3 ≡ last = rw begun refl in
    bind-ok (pause_stream paused_at id agent >> resume_stream id agent)
      (λ _. stop_stream stopped_at id agent) db p2 db2 both
    ∙ stop-running stopped_at id agent p2 db2 e2 mine refl
    ∙ rw (total, set-set id last p2 (set id p1 db.streams), set-set id last p1 db.streams) refl
