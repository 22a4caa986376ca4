-- ===== src/Escrow/MilestoneOutcomes.antt =====
-- How a call on one milestone ends.
use sthrip.Base.{
  ℕ, ◌≡◌, ◌⊎◌, ◌+◌, none, some, Option, ◌∷◌, arith, true, or_default, if◌then◌else◌, Bool, leb,
}
use sthrip.Base.Int.{ℤ, pos, ◌+ℤ◌, ◌-ℤ◌, ◌≤ℤ◌}
use sthrip.Base.Table.{Table, find, set, find-set_self, set-set}
use sthrip.Base.Action.{ok, Raised}
use sthrip.Models.Parties.{xmr, FeeSource, audit, webhook}
use sthrip.Models.Milestone
use sthrip.Models.Milestone.{EscrowMilestone, MilestoneStatus}
use sthrip.Models.Escrow.{EscrowDeal, EscrowStatus}
use sthrip.Models.Database.{Db}
use sthrip.Ledger.Rows.{paid}
use sthrip.Fees.{with_fee}
use sthrip.Escrow.MilestoneRepo.{delivered, activated, released, cancel_all}
use sthrip.Escrow.Trust.{completion_trust, fee_of}
use sthrip.Escrow.Milestones.{
  completed_count, completed_deal, advanced_deal, close_or_advance, deliver_milestone,
  release_milestone, release_event,
}

-- The deal with the rows `ms`.
abbrev pub with_parts : Table EscrowMilestone → EscrowDeal → EscrowDeal
with_parts ms d = record d { milestones = ms }

-- The rows after milestone `n` was started, if it is there and pending.
abbrev pub started : ℕ → ℕ → Option EscrowMilestone → Table EscrowMilestone → Table EscrowMilestone
started now n none ms = ms
started now n (some m) ms =
    if Milestone.is_pending m.status
    then set n (activated now m.delivery_timeout_hours m) ms
    else ms

-- The deal and the trust scores after `close_or_advance`, where `d` has its released milestone.
abbrev pub ends_with : ℕ → EscrowDeal → Bool
ends_with seq d = leb d.milestone_count (completed_count seq d.milestones)

abbrev pub after_release : ℕ → ℕ → ℤ → ℤ → EscrowDeal → EscrowDeal
after_release now seq amount fee d =
    let r = d.total_released +ℤ amount in
    let f = d.total_fees +ℤ fee in
    if ends_with seq d
    then with_parts (cancel_all now d.milestones) (completed_deal now r f d)
    else with_parts (started now (seq + 1) (find (seq + 1) d.milestones) d.milestones)
        (advanced_deal (seq + 1) r f d)

abbrev pub close_state : ℕ → ℕ → ℕ → ℤ → ℤ → EscrowDeal → Db → Db
close_state now id seq amount fee d db =
    let r = d.total_released +ℤ amount in
    record db {
      deals = set id (after_release now seq amount fee d) db.deals;
      reputations =
          if ends_with seq d
          then completion_trust now d.buyer_id d.seller_id r d.amount db.reputations
          else db.reputations;
    }

-- Where the stored deal is the deal as it was read first, with the rows `ms`, the step after a
-- released milestone never raises. It tells whether every milestone is completed, and leaves the
-- deal completed, its pending milestones cancelled and the trust scores moved, or the deal
-- advanced and the next milestone active.
pub close_or_advance_lem :
    (now id seq : ℕ) (amount fee : ℤ) (d0 : EscrowDeal) (ms : Table EscrowMilestone) (db : Db)
    → find id db.deals ≡ some (with_parts ms d0)
    → close_or_advance now id seq d0 amount fee db ≡ (
      ok (ends_with seq (with_parts ms d0)),
      close_state now id seq amount fee (with_parts ms d0) db,
    )
unfolding close_or_advance
close_or_advance_lem now id seq amount fee d0 ms db e =
    let d = with_parts ms d0 in
    let r = d.total_released +ℤ amount in
    let f = d.total_fees +ℤ fee in
    let c = completed_deal now r f d in
    let a = advanced_deal (seq + 1) r f d in
    let d' = after_release now seq amount fee d in
    ground (
      arith,
      find-set_self id c d db.deals e,
      find-set_self id a d db.deals e,
      set-set id d' c db.deals,
      set-set id d' a db.deals,
    )

-- What the guards of `release_milestone` ask of the deal, its milestone and the arguments.
abbrev pub Releasable : ℕ → ℤ → EscrowMilestone → EscrowDeal → Type 0
Releasable buyer amount m d =
    (d.status ≡ EscrowStatus.accepted)
    × (d.is_multi_milestone ≡ true)
    × (d.buyer_id ≡ buyer)
    × (m.status ≡ MilestoneStatus.delivered)
    × (pos 0 ≤ℤ amount)
    × (amount ≤ℤ m.amount)

-- The session in which milestone `seq` is released, and the money is paid.
abbrev pub paid_state : ℕ → ℕ → ℕ → ℤ → EscrowMilestone → EscrowDeal → Db → Db
paid_state now id seq amount m d db =
    let fee = fee_of amount d.fee_percent in
    let t = or_default d.token xmr in
    let rows = paid now d.seller_id (amount -ℤ fee) t db.balances in
    record db {
      balances = paid now d.buyer_id (m.amount -ℤ amount) t rows;
      fees = with_fee FeeSource.escrow id t fee db.fees;
      deals = set id (with_parts (set seq (released now amount fee m) d.milestones) d) db.deals;
    }

-- The same session once the deal is closed or its next milestone started, and the call logged.
abbrev pub released_state : ℕ → ℕ → ℕ → ℤ → EscrowMilestone → EscrowDeal → Db → Db
released_state now id seq amount m d db =
    let fee = fee_of amount d.fee_percent in
    let d' = with_parts (set seq (released now amount fee m) d.milestones) d in
    let after = close_state now id seq amount fee d' (paid_state now id seq amount m d db) in
    let event = release_event (ends_with seq d') in
    record after {
      journal =
          webhook d.seller_id event
          ∷ webhook d.buyer_id event
          ∷ audit "milestone.released" (some d.buyer_id) (some id)
          ∷ db.journal;
    }

abbrev pub released_result : ℕ → ℕ → ℤ → EscrowMilestone → EscrowDeal → EscrowDeal
released_result now seq amount m d =
    let fee = fee_of amount d.fee_percent in
    after_release now seq amount fee
      (with_parts (set seq (released now amount fee m) d.milestones) d)

-- For a deal that has milestone `seq`, either the guards hold, and the call returns the deal in
-- `released_state`, where the milestone is paid out, or they do not, and it raises with the session
-- as it was.
pub release_milestone_outcome :
    (now id seq buyer : ℕ) (amount : ℤ) (m : EscrowMilestone) (d : EscrowDeal) (db : Db)
    → find id db.deals ≡ some d
    → find seq d.milestones ≡ some m
    → (Releasable buyer amount m d
        × (release_milestone now id seq buyer amount db
            ≡ (ok (released_result now seq amount m d), released_state now id seq amount m d db)))
      ⊎ ((¬ Releasable buyer amount m d)
          × Raised (release_milestone now id seq buyer amount db).0
          × ((release_milestone now id seq buyer amount db).1 ≡ db))
unfolding release_milestone
release_milestone_outcome now id seq buyer amount m d db e em =
    let fee = fee_of amount d.fee_percent in
    let ms = set seq (released now amount fee m) d.milestones in
    let d' = after_release now seq amount fee (with_parts ms d) in
    let stored = find-set_self id (with_parts ms d) d db.deals e in
    ground (
      arith,
      stored,
      close_or_advance_lem now id seq amount fee d ms (paid_state now id seq amount m d db) stored,
      find-set_self id d' (with_parts ms d) (set id (with_parts ms d) db.deals) stored,
    )

-- A number that the deal has no milestone for.
pub release_milestone_unknown :
    (now id seq buyer : ℕ) (amount : ℤ) (d : EscrowDeal) (db : Db)
    → find id db.deals ≡ some d
    → find seq d.milestones ≡ none
    → Raised (release_milestone now id seq buyer amount db).0
      × ((release_milestone now id seq buyer amount db).1 ≡ db)
unfolding release_milestone
release_milestone_unknown now id seq buyer amount d db e em = ground arith

abbrev pub Deliverable : ℕ → EscrowMilestone → EscrowDeal → Type 0
Deliverable seller m d =
    (d.status ≡ EscrowStatus.accepted)
    × (d.is_multi_milestone ≡ true)
    × (d.seller_id ≡ seller)
    × (m.status ≡ MilestoneStatus.active)

abbrev pub delivered_parts : ℕ → ℕ → EscrowMilestone → EscrowDeal → EscrowDeal
delivered_parts now seq m d =
    with_parts (set seq (delivered now m.review_timeout_hours m) d.milestones) d

abbrev pub delivered_state : ℕ → ℕ → ℕ → EscrowMilestone → EscrowDeal → Db → Db
delivered_state now id seq m d db = record db {
  deals = set id (delivered_parts now seq m d) db.deals;
  journal =
      webhook d.seller_id "milestone.delivered"
      ∷ webhook d.buyer_id "milestone.delivered"
      ∷ audit "milestone.delivered" (some d.seller_id) (some id)
      ∷ db.journal;
}

-- For a deal that has milestone `seq`, either the guards hold, and the call returns the milestone in
-- `delivered_state`, where its review starts, or they do not, and it raises with the session as it
-- was.
pub deliver_milestone_outcome :
    (now id seq seller : ℕ) (m : EscrowMilestone) (d : EscrowDeal) (db : Db)
    → find id db.deals ≡ some d
    → find seq d.milestones ≡ some m
    → (Deliverable seller m d
        × (deliver_milestone now id seq seller db ≡ (
          ok (some (delivered now m.review_timeout_hours m)),
          delivered_state now id seq m d db,
        )))
      ⊎ ((¬ Deliverable seller m d)
          × Raised (deliver_milestone now id seq seller db).0
          × ((deliver_milestone now id seq seller db).1 ≡ db))
unfolding deliver_milestone
deliver_milestone_outcome now id seq seller m d db e em = ground (
  arith,
  find-set_self id (delivered_parts now seq m d) d db.deals e,
  find-set_self seq (delivered now m.review_timeout_hours m) m d.milestones em,
)

pub deliver_milestone_unknown :
    (now id seq seller : ℕ) (d : EscrowDeal) (db : Db)
    → find id db.deals ≡ some d
    → find seq d.milestones ≡ none
    → Raised (deliver_milestone now id seq seller db).0
      × ((deliver_milestone now id seq seller db).1 ≡ db)
unfolding deliver_milestone
deliver_milestone_unknown now id seq seller d db e em = ground arith
