-- ===== src/Escrow/Outcomes.antt =====
-- How each call on a whole deal ends: where it raises, and where its guards held, what the
-- session becomes.
use sthrip.Base.{ℕ, ◌≡◌, ◌⊎◌, none, some, Option, ◌∷◌, arith, false, or_default, if◌then◌else◌}
use sthrip.Base.Int.{ℤ, pos, ◌-ℤ◌, ◌≤ℤ◌}
use sthrip.Base.Table.{find, set, find-set_self, set-set}
use sthrip.Base.Action.{ok, Raised}
use sthrip.Models.Parties.{xmr, FeeSource, audit}
use sthrip.Models.Milestone
use sthrip.Models.Milestone.{EscrowMilestone}
use sthrip.Models.Escrow.{EscrowDeal, EscrowStatus}
use sthrip.Models.Database.{Db}
use sthrip.Ledger.Rows.{paid, amend, add_available}
use sthrip.Fees.{with_fee}
use sthrip.Escrow.Repo.{delivered_deal, accepted_deal, released_deal, cancelled_deal}
use sthrip.Escrow.MilestoneRepo.{activated}
use sthrip.Escrow.Trust.{completion_trust, fee_of}
use sthrip.Escrow.Deals.{
  deliver_escrow, release_escrow, cancel_escrow, accept_escrow, has_passed, is_deactivated,
}

-- The session after a release of `amount`.
abbrev pub released_state : ℕ → ℕ → ℕ → ℤ → EscrowDeal → Db → Db
released_state now id buyer amount d db =
    let fee = fee_of amount d.fee_percent in
    let t = or_default d.token xmr in
    let rows = paid now d.seller_id (amount -ℤ fee) t db.balances in
    record db {
      balances = paid now d.buyer_id (d.amount -ℤ amount) t rows;
      fees = with_fee FeeSource.escrow id t fee db.fees;
      deals = set id (released_deal now amount fee d) db.deals;
      reputations = completion_trust now d.buyer_id d.seller_id amount d.amount db.reputations;
      journal = audit "escrow.completed" (some buyer) (some id) ∷ db.journal;
    }

-- What the guards of `release_escrow` ask of the deal and the arguments.
abbrev pub Releasable : ℕ → ℤ → EscrowDeal → Type 0
Releasable buyer amount d =
    (d.status ≡ EscrowStatus.delivered)
    × (d.is_multi_milestone ≡ false)
    × (d.buyer_id ≡ buyer)
    × (pos 0 ≤ℤ amount)
    × (amount ≤ℤ d.amount)

-- For a deal that is there, either the guards hold, and the call returns the released deal in
-- `released_state`, or they do not, and it raises with the session as it was.
pub release_escrow_outcome :
    (now id buyer : ℕ) (amount : ℤ) (d : EscrowDeal) (db : Db)
    → find id db.deals ≡ some d
    → (Releasable buyer amount d
        × (release_escrow now id buyer amount db ≡ (
          ok (released_deal now amount (fee_of amount d.fee_percent) d),
          released_state now id buyer amount d db,
        )))
      ⊎ ((¬ Releasable buyer amount d)
          × Raised (release_escrow now id buyer amount db).0
          × ((release_escrow now id buyer amount db).1 ≡ db))
unfolding release_escrow
release_escrow_outcome now id buyer amount d db e =
    let fee = fee_of amount d.fee_percent in
    ground (arith, find-set_self id (released_deal now amount fee d) d db.deals e)

abbrev pub Deliverable : ℕ → EscrowDeal → Type 0
Deliverable seller d =
    (d.status ≡ EscrowStatus.accepted) × (d.is_multi_milestone ≡ false) × (d.seller_id ≡ seller)

abbrev pub delivered_state : ℕ → ℕ → ℕ → EscrowDeal → Db → Db
delivered_state now id seller d db = record db {
  deals = set id (delivered_deal now d.review_timeout_hours d) db.deals;
  journal = audit "escrow.delivered" (some seller) (some id) ∷ db.journal;
}

-- For a deal that is there, either the guards hold, and the call returns the delivered deal in
-- `delivered_state`, or they do not, and it raises with the session as it was.
pub deliver_escrow_outcome :
    (now id seller : ℕ) (d : EscrowDeal) (db : Db)
    → find id db.deals ≡ some d
    → (Deliverable seller d
        × (deliver_escrow now id seller db ≡ (
          ok (delivered_deal now d.review_timeout_hours d),
          delivered_state now id seller d db,
        )))
      ⊎ ((¬ Deliverable seller d)
          × Raised (deliver_escrow now id seller db).0
          × ((deliver_escrow now id seller db).1 ≡ db))
unfolding deliver_escrow
deliver_escrow_outcome now id seller d db e =
    ground (arith, find-set_self id (delivered_deal now d.review_timeout_hours d) d db.deals e)

abbrev pub Cancellable : ℕ → EscrowDeal → Type 0
Cancellable buyer d = (d.status ≡ EscrowStatus.created) × (d.buyer_id ≡ buyer)

abbrev pub cancelled_state : ℕ → ℕ → ℕ → EscrowDeal → Db → Db
cancelled_state now id buyer d db =
    let t = or_default d.token xmr in
    record db {
      balances = amend now d.buyer_id t (add_available now d.amount) db.balances;
      deals = set id (cancelled_deal now d) db.deals;
      journal = audit "escrow.cancelled" (some buyer) (some id) ∷ db.journal;
    }

-- For a deal that is there, either the guards hold, and the call returns the cancelled deal in
-- `cancelled_state`, where the buyer has the amount back, or they do not, and it raises with the
-- session as it was.
pub cancel_escrow_outcome :
    (now id buyer : ℕ) (d : EscrowDeal) (db : Db)
    → find id db.deals ≡ some d
    → (Cancellable buyer d
        × (cancel_escrow now id buyer db
            ≡ (ok (cancelled_deal now d), cancelled_state now id buyer d db)))
      ⊎ ((¬ Cancellable buyer d)
          × Raised (cancel_escrow now id buyer db).0
          × ((cancel_escrow now id buyer db).1 ≡ db))
unfolding cancel_escrow
cancel_escrow_outcome now id buyer d db e =
    ground (arith, find-set_self id (cancelled_deal now d) d db.deals e)

-- A deadline that is not behind, and a seller that the platform has not switched off.
abbrev pub Acceptable : ℕ → ℕ → EscrowDeal → Db → Type 0
Acceptable now seller d db =
    (d.status ≡ EscrowStatus.created)
    × (d.seller_id ≡ seller)
    × (has_passed now d.accept_deadline ≡ false)
    × (is_deactivated seller db ≡ false)

-- The accepted deal, whose first milestone is active if it was pending.
abbrev pub with_first_active : ℕ → Option EscrowMilestone → EscrowDeal → EscrowDeal
with_first_active now none d = d
with_first_active now (some m) d =
    if Milestone.is_pending m.status
    then record d { milestones = set 1 (activated now m.delivery_timeout_hours m) d.milestones }
    else d

abbrev pub accepted_result : ℕ → EscrowDeal → EscrowDeal
accepted_result now d =
    let d' = accepted_deal now d.delivery_timeout_hours d in
    if d.is_multi_milestone then with_first_active now (find 1 d.milestones) d' else d'

abbrev pub accepted_state : ℕ → ℕ → ℕ → EscrowDeal → Db → Db
accepted_state now id seller d db = record db {
  deals = set id (accepted_result now d) db.deals;
  journal = audit "escrow.accepted" (some seller) (some id) ∷ db.journal;
}

-- For a deal that is there, either the guards hold, and the call returns the accepted deal in
-- `accepted_state`, with its first milestone active where it has milestones and that one is pending,
-- or they do not, and it raises with the session as it was.
pub accept_escrow_outcome :
    (now id seller : ℕ) (d : EscrowDeal) (db : Db)
    → find id db.deals ≡ some d
    → (Acceptable now seller d db
        × (accept_escrow now id seller db
            ≡ (ok (accepted_result now d), accepted_state now id seller d db)))
      ⊎ ((¬ Acceptable now seller d db)
          × Raised (accept_escrow now id seller db).0
          × ((accept_escrow now id seller db).1 ≡ db))
unfolding accept_escrow
accept_escrow_outcome now id seller d db e =
    let d' = accepted_deal now d.delivery_timeout_hours d in
    ground (
      arith,
      find-set_self id (accepted_result now d) d db.deals e,
      find-set_self id d' d db.deals e,
      find-set_self id (accepted_result now d) d' (set id d' db.deals),
      set-set id (accepted_result now d) d' db.deals,
    )
