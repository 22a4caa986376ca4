-- ===== src/Escrow/Milestones.antt =====
-- The methods of `EscrowService` on one milestone (sthrip/services/escrow_service.py).
use sthrip.Base.{
  ℕ, ◌+◌, String, Option, some, [], ◌∷◌, Bool, true, false, not, ◌||◌, ◌&&◌, leb, ◌==◌,
  if◌then◌else◌, or_default,
}
use sthrip.Base.Int.{ℤ, pos, ◌+ℤ◌, ◌-ℤ◌, ltb_ℤ}
use sthrip.Base.Table.{Table}
use sthrip.Base.Action.{
  Action, pure, or_raise, raise_if, ◌>>=◌, ◌>>◌, value_error, lookup_error, permission_error,
}
use sthrip.Models.Parties.{xmr, FeeSource}
use sthrip.Models.Milestone
use sthrip.Models.Milestone.{EscrowMilestone}
use sthrip.Models.Escrow.{EscrowDeal, EscrowStatus, is_accepted}
use sthrip.Models.Database.{Db, audit_log, queue_webhook}
use sthrip.Ledger.Rows.{credit_positive}
use sthrip.Fees.{record_fee}
use sthrip.Escrow.Repo.{get_by_id, get_by_id_for_update, refetch, update_deal}
use sthrip.Escrow.MilestoneRepo
use sthrip.Escrow.Trust.{fee_of, apply_completion_trust}
use sthrip.Escrow.Deals.{pay_out, activate_pending}

unfoldable pub get_milestones : ℕ → ℕ → Action Db (Table EscrowMilestone)
get_milestones id agent = do
  deal ← or_raise (← get_by_id id) lookup_error
  raise_if (not (deal.buyer_id == agent) && not (deal.seller_id == agent)) lookup_error
  raise_if (not deal.is_multi_milestone) value_error
  MilestoneRepo.get_by_escrow id

unfoldable pub deliver_milestone : ℕ → ℕ → ℕ → ℕ → Action Db (Option EscrowMilestone)
unfolding MilestoneRepo.deliver
deliver_milestone now id seq seller = do
  deal ← or_raise (← get_by_id_for_update id) lookup_error
  raise_if (not deal.is_multi_milestone) value_error
  raise_if (not (deal.seller_id == seller)) permission_error
  raise_if (not (is_accepted deal.status)) value_error
  ms ← or_raise (← MilestoneRepo.get_by_escrow_and_sequence id seq) lookup_error
  raise_if (not (Milestone.is_active ms.status)) value_error
  rows ← MilestoneRepo.deliver now id seq ms.review_timeout_hours
  raise_if (rows == 0) value_error
  audit_log "milestone.delivered" (some seller) (some id)
  fresh ← MilestoneRepo.get_by_escrow_and_sequence id seq
  queue_webhook deal.buyer_id "milestone.delivered"
  queue_webhook deal.seller_id "milestone.delivered"
  pure fresh

-- `sum(1 for m in all_milestones if m.status == COMPLETED or m.id == ms.id)`
unfoldable pub completed_count : ℕ → Table EscrowMilestone → ℕ
completed_count seq [] = 0
completed_count seq ((n, m) ∷ ms) =
    (if Milestone.is_completed m.status || n == seq then 1 else 0) + completed_count seq ms

-- The two UPDATEs of a deal that follow a released milestone.
abbrev pub completed_deal : ℕ → ℤ → ℤ → EscrowDeal → EscrowDeal
completed_deal now released fees d = record d {
  status = EscrowStatus.completed;
  total_released = released;
  total_fees = fees;
  release_amount = some released;
  fee_amount = fees;
  completed_at = some now;
}

abbrev pub advanced_deal : ℕ → ℤ → ℤ → EscrowDeal → EscrowDeal
advanced_deal next released fees d = record d {
  total_released = released;
  total_fees = fees;
  current_milestone = next;
}

-- What both ways to release a milestone do after it: close the deal, or start the next milestone.
-- `deal` is the row as it was read first; the value tells whether this was the last milestone.
unfoldable pub close_or_advance : ℕ → ℕ → ℕ → EscrowDeal → ℤ → ℤ → Action Db Bool
unfolding completed_count apply_completion_trust MilestoneRepo.cancel_pending MilestoneRepo.activate
close_or_advance now id seq deal amount fee = do
  let released = deal.total_released +ℤ amount
  let fees = deal.total_fees +ℤ fee
  all_milestones ← MilestoneRepo.get_by_escrow id
  if leb deal.milestone_count (completed_count seq all_milestones)
      then (do
        update_deal id (λ _. true) (completed_deal now released fees)
        apply_completion_trust now deal.buyer_id deal.seller_id released deal.amount
        MilestoneRepo.cancel_pending now id
        pure true)
      else (do
        update_deal id (λ _. true) (advanced_deal (seq + 1) released fees)
        next ← MilestoneRepo.get_by_escrow_and_sequence id (seq + 1)
        activate_pending now id (seq + 1) next
        pure false)

abbrev pub release_event : Bool → String
release_event true = "escrow.completed"
release_event false = "milestone.released"

unfoldable pub release_milestone : ℕ → ℕ → ℕ → ℕ → ℤ → Action Db EscrowDeal
unfolding credit_positive record_fee MilestoneRepo.release
release_milestone now id seq buyer amount = do
  deal ← or_raise (← get_by_id_for_update id) lookup_error
  raise_if (not deal.is_multi_milestone) value_error
  raise_if (not (deal.buyer_id == buyer)) permission_error
  raise_if (not (is_accepted deal.status)) value_error
  ms ← or_raise (← MilestoneRepo.get_by_escrow_and_sequence id seq) lookup_error
  raise_if (not (Milestone.is_delivered ms.status)) value_error
  raise_if (ltb_ℤ amount (pos 0) || ltb_ℤ ms.amount amount) value_error
  let fee = fee_of amount deal.fee_percent
  pay_out now deal (amount -ℤ fee) (ms.amount -ℤ amount)
  record_fee FeeSource.escrow id (or_default deal.token xmr) fee
  rows ← MilestoneRepo.release now id seq amount fee
  raise_if (rows == 0) value_error
  is_last ← close_or_advance now id seq deal amount fee
  audit_log "milestone.released" (some buyer) (some id)
  fresh ← refetch id
  queue_webhook deal.buyer_id (release_event is_last)
  queue_webhook deal.seller_id (release_event is_last)
  pure fresh
