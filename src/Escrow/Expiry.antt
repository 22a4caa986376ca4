-- ===== src/Escrow/Expiry.antt =====
-- The background task that resolves escrows past their deadline: `resolve_expired` of
-- sthrip/services/escrow_service.py and what it calls.
use sthrip.Base.{
  ℕ, ◌+◌, String, Option, none, some, List, [], ◌∷◌, Bool, true, false, not, ◌==◌, if◌then◌else◌,
  or_default,
}
use sthrip.Base.Int.{ℤ, negsuc, ◌-ℤ◌}
use sthrip.Base.Action.{Action, gets, Result, ok, pure, gets, ◌>>=◌, ◌>>◌}
use sthrip.Models.Parties.{xmr, FeeSource}
use sthrip.Models.Milestone.{EscrowMilestone, MilestoneStatus}
use sthrip.Models.Escrow.{EscrowDeal, EscrowStatus, is_accepted}
use sthrip.Models.Database.{Db, audit_log, queue_webhook}
use sthrip.Ledger.Rows.{credit_positive, credit}
use sthrip.Fees.{record_fee}
use sthrip.Escrow.Repo
use sthrip.Escrow.Repo.{get_by_id_for_update, refetch, update_deal}
use sthrip.Escrow.MilestoneRepo
use sthrip.Escrow.Trust.{fee_of, adjust_trust, apply_completion_trust}
use sthrip.Escrow.Milestones.{close_or_advance}

abbrev pub notify_both : EscrowDeal → String → Action Db (Unit {0})
notify_both deal event = queue_webhook deal.buyer_id event >> queue_webhook deal.seller_id event

-- Accept timeout: the buyer is refunded, and trust stays.
unfoldable pub expire_not_accepted : ℕ → ℕ → EscrowDeal → Action Db Bool
unfolding Repo.expire credit
expire_not_accepted now id deal = do
  rows ← Repo.expire now id
  if rows == 0 then pure false else (do
    credit now deal.buyer_id deal.amount (or_default deal.token xmr)
    refetch id
    notify_both deal "escrow.expired"
    audit_log "escrow.expired" none (some id)
    pure true)

-- Delivery timeout: the buyer is refunded, and the seller loses three points.
unfoldable pub expire_not_delivered : ℕ → ℕ → EscrowDeal → Action Db Bool
unfolding Repo.expire credit adjust_trust
expire_not_delivered now id deal = do
  rows ← Repo.expire now id
  if rows == 0 then pure false else (do
    credit now deal.buyer_id deal.amount (or_default deal.token xmr)
    adjust_trust now deal.seller_id (negsuc 2)
    refetch id
    notify_both deal "escrow.expired"
    audit_log "escrow.expired" none (some id)
    pure true)

-- Review timeout: all of it goes to the seller.
unfoldable pub auto_release_full : ℕ → ℕ → EscrowDeal → Action Db Bool
unfolding Repo.release credit_positive record_fee apply_completion_trust
auto_release_full now id deal = do
  let fee = fee_of deal.amount deal.fee_percent
  rows ← Repo.release now id deal.amount fee
  if rows == 0 then pure false else (do
    credit_positive now deal.seller_id (deal.amount -ℤ fee) (or_default deal.token xmr)
    record_fee FeeSource.escrow id (or_default deal.token xmr) fee
    apply_completion_trust now deal.buyer_id deal.seller_id deal.amount deal.amount
    refetch id
    notify_both deal "escrow.completed"
    audit_log "escrow.auto_released" none (some id)
    pure true)

-- The branches of `_resolve_single` on the status of the locked row.
abbrev pub resolve_by_status : ℕ → ℕ → EscrowDeal → EscrowStatus → Action Db Bool
resolve_by_status now id deal EscrowStatus.created = expire_not_accepted now id deal
resolve_by_status now id deal EscrowStatus.accepted = expire_not_delivered now id deal
resolve_by_status now id deal EscrowStatus.delivered = auto_release_full now id deal
resolve_by_status now id deal _ = pure false

abbrev pub resolve_locked : ℕ → ℕ → Option EscrowDeal → Action Db Bool
resolve_locked now id none = pure false
resolve_locked now id (some deal) = resolve_by_status now id deal deal.status

unfoldable pub resolve_single : ℕ → ℕ → Action Db Bool
unfolding expire_not_accepted expire_not_delivered auto_release_full
resolve_single now id = do locked ← get_by_id_for_update id; resolve_locked now id locked

-- The status that a deal ends in when a milestone expires.
abbrev pub end_status : ℕ → EscrowStatus
end_status seq = if seq == 1 then EscrowStatus.expired else EscrowStatus.partially_completed

abbrev pub ended_deal : ℕ → ℕ → EscrowDeal → EscrowDeal
ended_deal now seq d = record d { status = end_status seq; completed_at = some now }

-- What `_expire_active_milestone` refunds.
abbrev pub remaining_of : EscrowDeal → ℤ
remaining_of deal = deal.amount -ℤ deal.total_released -ℤ deal.total_fees

unfoldable pub expire_active_milestone : ℕ → ℕ → ℕ → EscrowDeal → Action Db Bool
unfolding MilestoneRepo.expire MilestoneRepo.cancel_pending credit_positive adjust_trust
expire_active_milestone now id seq deal = do
  rows ← MilestoneRepo.expire now id seq
  if rows == 0 then pure false else (do
    MilestoneRepo.cancel_pending now id
    credit_positive now deal.buyer_id (remaining_of deal) (or_default deal.token xmr)
    update_deal id (λ _. true) (ended_deal now seq)
    adjust_trust now deal.seller_id (negsuc 2)
    refetch id
    notify_both deal "escrow.expired"
    audit_log "milestone.expired" none (some id)
    pure true)

abbrev pub auto_release_event : Bool → String
auto_release_event true = "escrow.completed"
auto_release_event false = "milestone.auto_released"

unfoldable pub auto_release_milestone : ℕ → ℕ → ℕ → EscrowDeal → EscrowMilestone → Action Db Bool
unfolding MilestoneRepo.release credit_positive record_fee
auto_release_milestone now id seq deal ms = do
  let fee = fee_of ms.amount deal.fee_percent
  rows ← MilestoneRepo.release now id seq ms.amount fee
  if rows == 0 then pure false else (do
    credit_positive now deal.seller_id (ms.amount -ℤ fee) (or_default deal.token xmr)
    record_fee FeeSource.escrow id (or_default deal.token xmr) fee
    is_last ← close_or_advance now id seq deal ms.amount fee
    refetch id
    notify_both deal (auto_release_event is_last)
    audit_log "milestone.auto_released" none (some id)
    pure true)

abbrev pub resolve_by_milestone :
    ℕ → ℕ → ℕ → EscrowDeal → EscrowMilestone → MilestoneStatus → Action Db Bool
resolve_by_milestone now id seq deal ms MilestoneStatus.active =
    expire_active_milestone now id seq deal
resolve_by_milestone now id seq deal ms MilestoneStatus.delivered =
    auto_release_milestone now id seq deal ms
resolve_by_milestone now id seq deal ms _ = pure false

abbrev pub resolve_locked_milestone :
    ℕ → ℕ → ℕ → EscrowDeal → Option EscrowMilestone → Action Db Bool
resolve_locked_milestone now id seq deal none = pure false
resolve_locked_milestone now id seq deal (some ms) =
    resolve_by_milestone now id seq deal ms ms.status

abbrev pub resolve_in_deal : ℕ → ℕ → ℕ → Option EscrowDeal → Action Db Bool
resolve_in_deal now id seq none = pure false
resolve_in_deal now id seq (some deal) = if not (is_accepted deal.status) then pure false else (do
  ms ← MilestoneRepo.get_by_escrow_and_sequence id seq
  resolve_locked_milestone now id seq deal ms)

unfoldable pub resolve_milestone_expiry : ℕ → ℕ → ℕ → Action Db Bool
unfolding expire_active_milestone auto_release_milestone
resolve_milestone_expiry now id seq = do
  deal ← get_by_id_for_update id
  resolve_in_deal now id seq deal

-- `try: if …: resolved += 1` with the exception logged: one more if it returned true.
abbrev pub counted_result : Result Bool → ℕ
counted_result (ok true) = 1
counted_result _ = 0

unfoldable pub attempt : Action Db Bool → Action Db ℕ
attempt m db = let (r, db') = m db in (ok (counted_result r), db')

unfoldable pub resolve_deals : ℕ → List ℕ → Action Db ℕ
unfolding attempt resolve_single
resolve_deals now [] = pure 0
resolve_deals now (id ∷ ids) = do
  n ← attempt (resolve_single now id)
  m ← resolve_deals now ids
  pure (n + m)

unfoldable pub resolve_milestones : ℕ → List (ℕ × ℕ) → Action Db ℕ
unfolding attempt resolve_milestone_expiry
resolve_milestones now [] = pure 0
resolve_milestones now ((id, seq) ∷ keys) = do
  n ← attempt (resolve_milestone_expiry now id seq)
  m ← resolve_milestones now keys
  pure (n + m)

-- The queries run once each, before the loop over their rows.
unfoldable pub resolve_expired : ℕ → Action Db ℕ
unfolding resolve_deals resolve_milestones MilestoneRepo.get_pending_milestone_expiry
resolve_expired now = do
  deals ← gets (λ (db : Db). Repo.get_pending_expiry now db.deals)
  n ← resolve_deals now deals
  keys ← gets (λ (db : Db). MilestoneRepo.get_pending_milestone_expiry now db.deals)
  m ← resolve_milestones now keys
  pure (n + m)
