-- ===== src/Recurring/Commit.antt =====
-- Creating, cancelling and updating a schedule, whose event is queued with a wrong argument.
use sthrip.Base.{ℕ, [], ◌∷◌, none, some, Option, arith, refl}
use sthrip.Base.Int.{ℤ}
use sthrip.Base.Action.{Action, Raised}
use sthrip.Models.Parties.{audit, Entry}
use sthrip.Models.Transfers.{RecurringInterval}
use sthrip.Models.Database.{Db, OneOf, Abandoned, transact_apart, transact_apart-Raised}
use sthrip.Recurring.Repo.{Terms}
use sthrip.Recurring.Service.{create_subscription, cancel_subscription, update_subscription}

create_subscription-Raised :
    (now id : ℕ) (r : Terms) (db : Db) → Raised (create_subscription now id r db).0
unfolding create_subscription
create_subscription-Raised now id r db = ground arith

cancel_subscription-Raised :
    (now id agent : ℕ) (db : Db) → Raised (cancel_subscription now id agent db).0
unfolding cancel_subscription
cancel_subscription-Raised now id agent db = ground arith

update_subscription-Raised :
    (id agent : ℕ) (amount : Option ℤ) (interval : Option RecurringInterval) (db : Db)
    → Raised (update_subscription id agent amount interval db).0
unfolding update_subscription
update_subscription-Raised id agent amount interval db = ground arith

created_apart :
    (now id : ℕ) (r : Terms) (db : Db)
    → OneOf (create_subscription now id r db).1.own_audits (
        db.own_audits
        ∷ (audit "recurring.created" (some r.from_agent_id) none ∷ db.own_audits)
        ∷ [])
unfolding create_subscription
created_apart now id r db = ground arith

cancelled_apart :
    (now id agent : ℕ) (db : Db)
    → OneOf
        (cancel_subscription now id agent db).1.own_audits
        (db.own_audits ∷ (audit "recurring.cancelled" (some agent) none ∷ db.own_audits) ∷ [])
unfolding cancel_subscription
cancelled_apart now id agent db = ground arith

updated_apart :
    (id agent : ℕ) (amount : Option ℤ) (interval : Option RecurringInterval) (db : Db)
    → OneOf
        (update_subscription id agent amount interval db).1.own_audits
        (db.own_audits ∷ (audit "recurring.updated" (some agent) none ∷ db.own_audits) ∷ [])
unfolding update_subscription
updated_apart id agent amount interval db = ground arith

-- The call raises, and its transaction leaves the database as it was but, perhaps, for one audit row
-- that is committed apart.
abbrev pub Fails : {A : Type 0} → Action Db A → Db → Entry → Type 0
Fails m db row = Raised (m db).0 × Abandoned db (transact_apart m db).1 ((row ∷ db.own_audits) ∷ [])

Raised-Fails :
    {A : Type 0} (m : Action Db A) (db : Db) (row : Entry)
    → Raised (m db).0
    → OneOf (m db).1.own_audits (db.own_audits ∷ (row ∷ db.own_audits) ∷ [])
    → Fails m db row
Raised-Fails m db row raised rows = (raised, rw (transact_apart-Raised m db raised) (refl, rows))

-- Creating, cancelling and updating a schedule never commit: whatever the request, the call raises,
-- and its transaction leaves the database as it was but, perhaps, for an audit row that is committed
-- apart, which says that the schedule was created, cancelled or updated.
pub schedules_never_commit :
    (now id agent : ℕ) (r : Terms) (amount : Option ℤ) (interval : Option RecurringInterval)
    (db : Db)
    → Fails
        (create_subscription now id r)
        db
        (audit "recurring.created" (some r.from_agent_id) none)
      × Fails (cancel_subscription now id agent) db (audit "recurring.cancelled" (some agent) none)
      × Fails
          (update_subscription id agent amount interval)
          db
          (audit "recurring.updated" (some agent) none)
schedules_never_commit now id agent r amount interval db = (
  Raised-Fails (create_subscription now id r) db
      (audit "recurring.created" (some r.from_agent_id) none)
      (create_subscription-Raised now id r db) (created_apart now id r db),
  Raised-Fails (cancel_subscription now id agent) db (audit "recurring.cancelled" (some agent) none)
      (cancel_subscription-Raised now id agent db) (cancelled_apart now id agent db),
  Raised-Fails (update_subscription id agent amount interval) db
      (audit "recurring.updated" (some agent) none)
      (update_subscription-Raised id agent amount interval db)
      (updated_apart id agent amount interval db),
)
