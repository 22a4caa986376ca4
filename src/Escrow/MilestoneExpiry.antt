-- ===== src/Escrow/MilestoneExpiry.antt =====
-- A milestone that was not delivered in time: what its resolution leaves, and what it does to the
-- books.
use sthrip.Base.{ℕ, ◌≡◌, none, some, inl, inr, ◌∷◌, arith, true, or_default, Bool-cases, ◌==◌}
use sthrip.Base.Int.{pos, negsuc, ◌+ℤ◌, ◌-ℤ◌, ◌≤ℤ◌, int_laws, parts}
use sthrip.Base.Table.{find, set, find-set_self, set-set, sum-set}
use sthrip.Base.Action.{ok}
use sthrip.Models.Parties.{xmr, audit, webhook}
use sthrip.Models.Milestone.{EscrowMilestone, MilestoneStatus}
use sthrip.Models.Escrow.{EscrowDeal, EscrowStatus}
use sthrip.Models.Database.{Db}
use sthrip.Ledger.Held.{counted, counted_zero, held-paid}
use sthrip.Ledger.Rows.{paid}
use sthrip.Accounting.{in_escrow, assets, open_amount}
use sthrip.Escrow.MilestoneRepo.{expired, cancel_all}
use sthrip.Escrow.Trust.{adjusted}
use sthrip.Escrow.Expiry.{ended_deal, remaining_of, resolve_milestone_expiry}
use sthrip.Escrow.MilestoneOutcomes.{with_parts}

-- The milestone has expired, those after it are cancelled, and the deal has ended.
abbrev pub expired_deal : ℕ → ℕ → EscrowMilestone → EscrowDeal → EscrowDeal
expired_deal now seq m d =
    ended_deal now seq (with_parts (cancel_all now (set seq (expired now m) d.milestones)) d)

abbrev pub expired_state : ℕ → ℕ → ℕ → EscrowMilestone → EscrowDeal → Db → Db
expired_state now id seq m d db = record db {
  balances = paid now d.buyer_id (remaining_of d) (or_default d.token xmr) db.balances;
  deals = set id (expired_deal now seq m d) db.deals;
  reputations = adjusted now d.seller_id (negsuc 2) db.reputations;
  journal =
      audit "milestone.expired" none (some id)
      ∷ webhook d.seller_id "escrow.expired"
      ∷ webhook d.buyer_id "escrow.expired"
      ∷ db.journal;
}

-- The resolution of an active milestone of an accepted deal.
pub resolve_milestone_expiry-active :
    (now id seq : ℕ) (m : EscrowMilestone) (d : EscrowDeal) (db : Db)
    → find id db.deals ≡ some d
    → find seq d.milestones ≡ some m
    → d.status ≡ EscrowStatus.accepted
    → m.status ≡ MilestoneStatus.active
    → resolve_milestone_expiry now id seq db ≡ (ok true, expired_state now id seq m d db)
unfolding resolve_milestone_expiry
resolve_milestone_expiry-active now id seq m d db e em st sm =
    let d1 = with_parts (set seq (expired now m) d.milestones) d in
    let d2 = with_parts (cancel_all now (set seq (expired now m) d.milestones)) d in
    let d3 = expired_deal now seq m d in
    ground (
      arith,
      find-set_self id d1 d db.deals e,
      find-set_self id d2 d db.deals e,
      find-set_self id d3 d db.deals e,
      set-set id d2 d1 db.deals,
      set-set id d3 d2 db.deals,
    )

ended-in_escrow :
    (u now seq : ℕ) (m : EscrowMilestone) (d : EscrowDeal)
    → in_escrow u (expired_deal now seq m d) ≡ pos 0
unfolding in_escrow
ended-in_escrow u now seq m d = elim (Bool-cases (seq == 1)) [
  | inl e ↦ rw e (counted_zero u (or_default d.token xmr))
  | inr e ↦ rw e (counted_zero u (or_default d.token xmr))
]

-- Where an active milestone of an accepted deal of milestones expires, and the deal's amount less
-- what was released and less the fees is not negative, that is what is paid: with what the open
-- milestones held added, the books are as before with that difference added.
pub resolve_milestone_expiry-assets :
    (u now id seq : ℕ) (m : EscrowMilestone) (d : EscrowDeal) (db : Db)
    → find id db.deals ≡ some d
    → find seq d.milestones ≡ some m
    → d.status ≡ EscrowStatus.accepted
    → d.is_multi_milestone ≡ true
    → m.status ≡ MilestoneStatus.active
    → pos 0 ≤ℤ remaining_of d
    → assets u (resolve_milestone_expiry now id seq db).1
        +ℤ counted u (or_default d.token xmr) (open_amount d.milestones)
      ≡ assets u db
        +ℤ counted u (or_default d.token xmr) (d.amount -ℤ d.total_released -ℤ d.total_fees)
unfolding assets in_escrow
resolve_milestone_expiry-assets u now id seq m d db e em st multi sm left =
    let t = or_default d.token xmr in
    let before : in_escrow u d ≡ counted u t (open_amount d.milestones) = rw (st, multi) in
    rw (resolve_milestone_expiry-active now id seq m d db e em st sm) (
      omega (
        int_laws,
        parts before,
        parts (ended-in_escrow u now seq m d),
        parts (held-paid u now d.buyer_id t (remaining_of d) db.balances left),
        parts (sum-set (in_escrow u) id (expired_deal now seq m d) d db.deals e),
      ))
