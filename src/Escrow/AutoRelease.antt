-- ===== src/Escrow/AutoRelease.antt =====
-- How the resolution of one expired milestone ends (`_resolve_milestone_expiry`), and the books after
-- an automatic release (`_auto_release_milestone`).
use sthrip.Base.{ℕ, ◌≡◌, ◌⊎◌, none, some, inl, inr, ◌∷◌, arith, true, false, or_default, ◌≢◌}
use sthrip.Base.Int.{◌-ℤ◌, int_laws, parts}
use sthrip.Base.Table.{find, set, find-set_self, sum-set, find-All}
use sthrip.Base.Action.{ok}
use sthrip.Models.Parties.{xmr, FeeSource, audit, webhook}
use sthrip.Models.Milestone.{EscrowMilestone, MilestoneStatus}
use sthrip.Models.Escrow.{EscrowDeal, EscrowStatus}
use sthrip.Models.Database.{Db}
use sthrip.Ledger.Held.{counted-sub, held-paid}
use sthrip.Ledger.Rows.{paid}
use sthrip.Fees.{with_fee, fee_sum-with_fee}
use sthrip.Accounting.{in_escrow, assets}
use sthrip.Escrow.MilestoneRepo.{released}
use sthrip.Escrow.Trust.{fee_of, fee_of_bounds}
use sthrip.Escrow.Expiry.{auto_release_event, resolve_milestone_expiry}
use sthrip.Escrow.WellFormed.{IsWellFormed, Positive}
use sthrip.Escrow.MilestoneOutcomes.{
  with_parts, ends_with, after_release, close_state, close_or_advance_lem,
}
use sthrip.Escrow.MilestoneBooks.{after_release-in_escrow}
use sthrip.Escrow.MilestoneExpiry.{expired_state, resolve_milestone_expiry-active}

-- The deal with milestone `seq` released whole.
abbrev pub with_released : ℕ → ℕ → EscrowMilestone → EscrowDeal → EscrowDeal
with_released now seq m d =
    let fee = fee_of m.amount d.fee_percent in
    with_parts (set seq (released now m.amount fee m) d.milestones) d

-- The session in which the milestone is released and the seller has all of it less the fee.
abbrev pub auto_paid_state : ℕ → ℕ → ℕ → EscrowMilestone → EscrowDeal → Db → Db
auto_paid_state now id seq m d db =
    let fee = fee_of m.amount d.fee_percent in
    let t = or_default d.token xmr in
    record db {
      balances = paid now d.seller_id (m.amount -ℤ fee) t db.balances;
      fees = with_fee FeeSource.escrow id t fee db.fees;
      deals = set id (with_released now seq m d) db.deals;
    }

abbrev pub auto_released_state : ℕ → ℕ → ℕ → EscrowMilestone → EscrowDeal → Db → Db
auto_released_state now id seq m d db =
    let fee = fee_of m.amount d.fee_percent in
    let d' = with_released now seq m d in
    let after = close_state now id seq m.amount fee d' (auto_paid_state now id seq m d db) in
    let event = auto_release_event (ends_with seq d') in
    record after {
      journal =
          audit "milestone.auto_released" none (some id)
          ∷ webhook d.seller_id event
          ∷ webhook d.buyer_id event
          ∷ db.journal;
    }

resolve_milestone_expiry-delivered :
    (now id seq : ℕ) (m : EscrowMilestone) (d : EscrowDeal) (db : Db)
    → find id db.deals ≡ some d
    → find seq d.milestones ≡ some m
    → d.status ≡ EscrowStatus.accepted
    → m.status ≡ MilestoneStatus.delivered
    → resolve_milestone_expiry now id seq db ≡ (ok true, auto_released_state now id seq m d db)
unfolding resolve_milestone_expiry
resolve_milestone_expiry-delivered now id seq m d db e em st sm =
    let fee = fee_of m.amount d.fee_percent in
    let d' = with_released now seq m d in
    let ms = set seq (released now m.amount fee m) d.milestones in
    let stored = find-set_self id d' d db.deals e in
    ground (
      arith,
      stored,
      close_or_advance_lem now id seq m.amount fee d ms (auto_paid_state now id seq m d db) stored,
      find-set_self id (after_release now seq m.amount fee d') d' (set id d' db.deals) stored,
    )

-- The resolution does something to this milestone.
abbrev pub IsOpen : MilestoneStatus → Type 0
IsOpen MilestoneStatus.active = Unit
IsOpen MilestoneStatus.delivered = Unit
IsOpen _ = ⊥

resolve_milestone_expiry-other :
    (now id seq : ℕ) (m : EscrowMilestone) (d : EscrowDeal) (db : Db)
    → find id db.deals ≡ some d
    → find seq d.milestones ≡ some m
    → (d.status ≢ EscrowStatus.accepted) ⊎ (¬ IsOpen m.status)
    → resolve_milestone_expiry now id seq db ≡ (ok false, db)
unfolding resolve_milestone_expiry
resolve_milestone_expiry-other now id seq m d db e em h = ground arith

pub resolve_milestone_expiry_unknown :
    (now id seq : ℕ) (d : EscrowDeal) (db : Db)
    → find id db.deals ≡ some d
    → find seq d.milestones ≡ none
    → resolve_milestone_expiry now id seq db ≡ (ok false, db)
unfolding resolve_milestone_expiry
resolve_milestone_expiry_unknown now id seq d db e em = ground arith

-- For a deal that has milestone `seq`: in an accepted deal an active milestone expires, in
-- `expired_state`, and a delivered one is released whole, in `auto_released_state`; any other milestone
-- and any other deal is left, with the answer false.
pub resolve_milestone_expiry_outcome :
    (now id seq : ℕ) (m : EscrowMilestone) (d : EscrowDeal) (db : Db)
    → find id db.deals ≡ some d
    → find seq d.milestones ≡ some m
    → ((d.status ≡ EscrowStatus.accepted)
        × (m.status ≡ MilestoneStatus.active)
        × (resolve_milestone_expiry now id seq db ≡ (ok true, expired_state now id seq m d db)))
      ⊎ ((d.status ≡ EscrowStatus.accepted)
          × (m.status ≡ MilestoneStatus.delivered)
          × (resolve_milestone_expiry now id seq db
              ≡ (ok true, auto_released_state now id seq m d db)))
      ⊎ (((d.status ≢ EscrowStatus.accepted) ⊎ (¬ IsOpen m.status))
          × (resolve_milestone_expiry now id seq db ≡ (ok false, db)))
resolve_milestone_expiry_outcome now id seq m d db e em =
    let expires = resolve_milestone_expiry-active now id seq m d db e em in
    let releases = resolve_milestone_expiry-delivered now id seq m d db e em in
    let leaves = resolve_milestone_expiry-other now id seq m d db e em in
    elim (status_cases d.status m.status) [
      | inl (st, sm) ↦ inl (st, sm, expires st sm)
      | inr (inl (st, sm)) ↦ inr (inl (st, sm, releases st sm))
      | inr (inr other) ↦ inr (inr (other, leaves other))
    ]
  where
    status_cases :
        (s : EscrowStatus) (t : MilestoneStatus)
        → ((s ≡ EscrowStatus.accepted) × (t ≡ MilestoneStatus.active))
          ⊎ ((s ≡ EscrowStatus.accepted) × (t ≡ MilestoneStatus.delivered))
          ⊎ ((s ≢ EscrowStatus.accepted) ⊎ (¬ IsOpen t))
    status_cases s t = ground arith

-- In a well-formed deal of milestones that is accepted, the automatic release of a delivered
-- milestone keeps the books of every token.
pub auto_release_milestone-assets :
    (u now id seq : ℕ) (m : EscrowMilestone) (d : EscrowDeal) (db : Db)
    → find id db.deals ≡ some d
    → find seq d.milestones ≡ some m
    → IsWellFormed d
    → d.is_multi_milestone ≡ true
    → d.status ≡ EscrowStatus.accepted
    → m.status ≡ MilestoneStatus.delivered
    → assets u (resolve_milestone_expiry now id seq db).1 ≡ assets u db
unfolding assets
auto_release_milestone-assets u now id seq m d db e em w multi st sm =
    let fee = fee_of m.amount d.fee_percent in
    let t = or_default d.token xmr in
    let d' = with_released now seq m d in
    let some_left = find-All Positive seq m d.milestones w.parts_positive em in
    let bounds = fee_of_bounds m.amount d.fee_percent some_left w.rate_fits in
    rw (resolve_milestone_expiry-delivered now id seq m d db e em st sm) (
      omega (
        int_laws,
        parts (held-paid u now d.seller_id t (m.amount -ℤ fee) db.balances (omega int_laws)),
        parts (fee_sum-with_fee u FeeSource.escrow id t fee db.fees bounds.0),
        parts (sum-set (in_escrow u) id d' d db.deals e),
        parts (
            sum-set (in_escrow u) id (after_release now seq m.amount fee d') d' (set id d' db.deals)
              (find-set_self id d' d db.deals e)),
        parts (after_release-in_escrow u now seq m.amount fee m d w multi st em sm),
        parts (counted-sub u t m.amount fee),
      ))
