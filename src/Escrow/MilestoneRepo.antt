-- ===== src/Escrow/MilestoneRepo.antt =====
-- `MilestoneRepository` (sthrip/db/milestone_repo.py).
use sthrip.Base.{
  ℕ, ◌+◌, String, Option, none, some, List, [], ◌∷◌, ◌++◌, Bool, false, ◌||◌, ◌&&◌, ltb,
  if◌then◌else◌,
}
use sthrip.Base.Int.{ℤ, pos, leb_ℤ}
use sthrip.Base.Table.{Table, find, set, update_where}
use sthrip.Base.Action.{Action, ok, err, integrity_error, gets}
use sthrip.Models.Milestone
use sthrip.Models.Milestone.{EscrowMilestone, MilestoneStatus}
use sthrip.Models.Escrow.{EscrowDeal}
use sthrip.Models.Database.{Db}
use sthrip.Escrow.Repo.{hours, is_due}

-- One entry of the list that the caller of `create_escrow` gives.
pub record MilestoneTerms : Type 0 where
  pub description : String
  pub amount : ℤ
  pub delivery_timeout_hours : ℕ
  pub review_timeout_hours : ℕ

abbrev pub new_milestone : MilestoneTerms → EscrowMilestone
new_milestone m = record {
  description = m.description;
  amount = m.amount;
  delivery_timeout_hours = m.delivery_timeout_hours;
  review_timeout_hours = m.review_timeout_hours;
  delivery_deadline = none;
  review_deadline = none;
  release_amount = none;
  fee_amount = pos 0;
  status = MilestoneStatus.pending;
  activated_at = none;
  delivered_at = none;
  completed_at = none;
  cancelled_at = none;
  expires_at = none;
}

-- `enumerate(milestones_data, start=n)`
unfoldable pub milestones_from : ℕ → List MilestoneTerms → Table EscrowMilestone
milestones_from n [] = []
milestones_from n (m ∷ ms) = (n, new_milestone m) ∷ milestones_from (n + 1) ms

-- `ck_milestone_sequence_range` and `ck_milestone_amount_positive`, from sequence number n on.
unfoldable pub breaks_constraint : ℕ → List MilestoneTerms → Bool
breaks_constraint n [] = false
breaks_constraint n (m ∷ ms) = ltb 10 n || leb_ℤ m.amount (pos 0) || breaks_constraint (n + 1) ms

unfoldable pub create_milestones : ℕ → EscrowDeal → List MilestoneTerms → Action Db EscrowDeal
create_milestones id deal ms db =
    let deal' = record deal { milestones = milestones_from 1 ms } in
    if breaks_constraint 1 ms
    then (err integrity_error, db)
    else (ok deal', record db { deals = set id deal' db.deals })

-- `get_by_escrow_and_sequence`, of a deal's rows.
abbrev pub milestone_of : ℕ → Option EscrowDeal → Option EscrowMilestone
milestone_of seq none = none
milestone_of seq (some d) = find seq d.milestones

abbrev pub get_by_escrow_and_sequence : ℕ → ℕ → Action Db (Option EscrowMilestone)
get_by_escrow_and_sequence id seq = gets (λ db. milestone_of seq (find id db.deals))

abbrev pub milestones_of : Option EscrowDeal → Table EscrowMilestone
milestones_of none = []
milestones_of (some d) = d.milestones

abbrev pub get_by_escrow : ℕ → Action Db (Table EscrowMilestone)
get_by_escrow id = gets (λ db. milestones_of (find id db.deals))

-- An UPDATE of one milestone where `p` holds of it.
abbrev pub update_milestone :
    ℕ → ℕ → (EscrowMilestone → Bool) → (EscrowMilestone → EscrowMilestone) → Action Db ℕ
update_milestone id seq p f db = elim (find id db.deals) [
  | none ↦ (ok 0, db)
  | some d ↦
      let (rows, ms) = update_where seq p f d.milestones in
      (ok rows, record db { deals = set id (record d { milestones = ms }) db.deals })
]

abbrev pub activated : ℕ → ℕ → EscrowMilestone → EscrowMilestone
activated now h m = record m {
  status = MilestoneStatus.active;
  activated_at = some now;
  delivery_deadline = some (now + hours h);
  expires_at = some (now + hours h);
}

unfoldable pub activate : ℕ → ℕ → ℕ → ℕ → Action Db ℕ
activate now id seq h =
    update_milestone id seq (λ m. Milestone.is_pending m.status) (activated now h)

abbrev pub delivered : ℕ → ℕ → EscrowMilestone → EscrowMilestone
delivered now h m = record m {
  status = MilestoneStatus.delivered;
  delivered_at = some now;
  review_deadline = some (now + hours h);
  expires_at = some (now + hours h);
}

unfoldable pub deliver : ℕ → ℕ → ℕ → ℕ → Action Db ℕ
deliver now id seq h = update_milestone id seq (λ m. Milestone.is_active m.status) (delivered now h)

abbrev pub released : ℕ → ℤ → ℤ → EscrowMilestone → EscrowMilestone
released now amount fee m = record m {
  status = MilestoneStatus.completed;
  release_amount = some amount;
  fee_amount = fee;
  completed_at = some now;
}

unfoldable pub release : ℕ → ℕ → ℕ → ℤ → ℤ → Action Db ℕ
release now id seq amount fee =
    update_milestone id seq (λ m. Milestone.is_delivered m.status) (released now amount fee)

abbrev pub expired : ℕ → EscrowMilestone → EscrowMilestone
expired now m = record m { status = MilestoneStatus.expired; expires_at = some now }

unfoldable pub expire : ℕ → ℕ → ℕ → Action Db ℕ
expire now id seq = update_milestone id seq (λ m. Milestone.is_active m.status) (expired now)

abbrev pub cancelled : ℕ → EscrowMilestone → EscrowMilestone
cancelled now m =
    if Milestone.is_pending m.status
    then record m { status = MilestoneStatus.cancelled; cancelled_at = some now }
    else m

unfoldable pub cancel_all : ℕ → Table EscrowMilestone → Table EscrowMilestone
cancel_all now [] = []
cancel_all now ((n, m) ∷ ms) = (n, cancelled now m) ∷ cancel_all now ms

unfoldable pub cancel_pending : ℕ → ℕ → Action Db (Unit {0})
unfolding cancel_all
cancel_pending now id db = elim (find id db.deals) [
  | none ↦ (ok tt, db)
  | some d ↦ (
    ok tt,
    record db { deals = set id (record d { milestones = cancel_all now d.milestones }) db.deals },
  )
]

abbrev pub awaits_expiry : ℕ → EscrowMilestone → Bool
awaits_expiry now m =
    is_due now m.expires_at && (Milestone.is_active m.status || Milestone.is_delivered m.status)

unfoldable pub due_milestones : ℕ → ℕ → Table EscrowMilestone → List (ℕ × ℕ)
due_milestones now id [] = []
due_milestones now id ((n, m) ∷ ms) =
    if awaits_expiry now m then (id, n) ∷ due_milestones now id ms else due_milestones now id ms

-- The keys of the rows that the query of `get_pending_milestone_expiry` finds.
unfoldable pub get_pending_milestone_expiry : ℕ → Table EscrowDeal → List (ℕ × ℕ)
unfolding due_milestones
get_pending_milestone_expiry now [] = []
get_pending_milestone_expiry now ((id, d) ∷ deals) =
    due_milestones now id d.milestones ++ get_pending_milestone_expiry now deals
