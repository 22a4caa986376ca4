-- ===== src/Channel/Commit.antt =====
-- The calls that log their new values.
use sthrip.Base.{ℕ, ◌≡◌, String, arith}
use sthrip.Base.Int.{ℤ}
use sthrip.Base.Action.{Raised, transact, transact-Raised}
use sthrip.Models.Database.{Db}
use sthrip.Channel.Repo.{Signed}
use sthrip.Channel.Service.{open_channel, settle, dispute}

pub open_channel-Raised :
    (now id : ℕ) (hash : String) (a b : ℕ) (x y : ℤ) (period : ℕ) (db : Db)
    → Raised (open_channel now id hash a b x y period db).0
unfolding open_channel
open_channel-Raised now id hash a b x y period db = ground arith

settle-Raised : (now id agent : ℕ) (s : Signed) (db : Db) → Raised (settle now id agent s db).0
unfolding settle
settle-Raised now id agent s db = ground arith

dispute-Raised : (id agent : ℕ) (s : Signed) (db : Db) → Raised (dispute id agent s db).0
unfolding dispute
dispute-Raised id agent s db = ground arith

-- Opening, settling and disputing a channel never commit: whatever the request, the call raises,
-- and its transaction leaves the database as it was.
pub channel_calls_never_commit :
    (now id : ℕ) (hash : String) (a b : ℕ) (x y : ℤ) (period agent : ℕ) (s : Signed) (db : Db)
    → ((transact (open_channel now id hash a b x y period) db).1 ≡ db)
      × ((transact (settle now id agent s) db).1 ≡ db)
      × ((transact (dispute id agent s) db).1 ≡ db)
channel_calls_never_commit now id hash a b x y period agent s db = (
  transact-Raised (open_channel now id hash a b x y period) db
      (open_channel-Raised now id hash a b x y period db),
  transact-Raised (settle now id agent s) db (settle-Raised now id agent s db),
  transact-Raised (dispute id agent s) db (dispute-Raised id agent s db),
)
