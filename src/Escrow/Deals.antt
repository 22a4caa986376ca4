-- ===== src/Escrow/Deals.antt =====
-- The methods of `EscrowService` on a whole deal (sthrip/services/escrow_service.py). One call
-- reads the clock once, as `now`.
use sthrip.Base.{
  ℕ, String, Option, none, some, List, [], ◌∷◌, Bool, true, false, not, ◌||◌, ◌&&◌, ltb, ◌==◌,
  if◌then◌else◌, or_default, length,
}
use sthrip.Base.Int.{ℤ, pos, ◌+ℤ◌, ◌-ℤ◌, ltb_ℤ, leb_ℤ, ◌==ℤ◌}
use sthrip.Base.Table.{find}
use sthrip.Base.Action.{
  Action, pure, gets, or_raise, raise_if, when, ◌>>=◌, ◌>>◌, value_error, lookup_error,
  permission_error,
}
use sthrip.Models.Parties.{xmr, FeeSource}
use sthrip.Models.Milestone
use sthrip.Models.Milestone.{EscrowMilestone}
use sthrip.Models.Escrow.{EscrowDeal, is_created, is_accepted, is_delivered}
use sthrip.Models.Database.{Db, audit_log}
use sthrip.Ledger.Rows.{credit_positive, credit, deduct}
use sthrip.Fees.{record_fee}
use sthrip.Escrow.Repo
use sthrip.Escrow.Repo.{Terms, get_by_id, get_by_id_for_update, refetch}
use sthrip.Escrow.MilestoneRepo
use sthrip.Escrow.MilestoneRepo.{MilestoneTerms}
use sthrip.Escrow.Trust.{default_fee_percent, fee_of, apply_completion_trust}

-- The arguments of `create_escrow`, with its unused tier left out.
pub record Request : Type 0 where
  pub buyer_id : ℕ
  pub seller_id : ℕ
  pub amount : ℤ
  pub description : String
  pub accept_timeout_hours : ℕ
  pub delivery_timeout_hours : ℕ
  pub review_timeout_hours : ℕ
  pub milestones : Option (List MilestoneTerms)

abbrev pub terms_of : Request → Terms
terms_of r = record {
  buyer_id = r.buyer_id;
  seller_id = r.seller_id;
  amount = r.amount;
  description = r.description;
  accept_timeout_hours = r.accept_timeout_hours;
  delivery_timeout_hours = r.delivery_timeout_hours;
  review_timeout_hours = r.review_timeout_hours;
  fee_percent = default_fee_percent;
}

unfoldable pub total_amount : List MilestoneTerms → ℤ
total_amount [] = pos 0
total_amount (m ∷ ms) = m.amount +ℤ total_amount ms

abbrev pub breaks_total : Option (List MilestoneTerms) → ℤ → Bool
breaks_total none amount = false
breaks_total (some ms) amount = not (total_amount ms ==ℤ amount)

abbrev pub multi_milestone : List MilestoneTerms → EscrowDeal → EscrowDeal
multi_milestone ms d = record d {
  is_multi_milestone = true;
  milestone_count = length ms;
  current_milestone = 1;
  total_released = pos 0;
  total_fees = pos 0;
}

-- The block under `if milestones is not None` that follows the deal's creation.
unfoldable pub set_up_milestones :
    ℕ → EscrowDeal → Option (List MilestoneTerms) → Action Db EscrowDeal
unfolding MilestoneRepo.create_milestones
set_up_milestones id deal none = pure deal
set_up_milestones id deal (some ms) =
    MilestoneRepo.create_milestones id (multi_milestone ms deal) ms

unfoldable pub create_escrow : ℕ → ℕ → String → Request → Action Db EscrowDeal
unfolding deduct Repo.create set_up_milestones
create_escrow now id hash r = do
  raise_if (r.buyer_id == r.seller_id) value_error
  raise_if (leb_ℤ r.amount (pos 0)) value_error
  raise_if (breaks_total r.milestones r.amount) value_error
  seller ← or_raise (← gets (λ (db : Db). find r.seller_id db.agents)) lookup_error
  raise_if (not seller.is_active) value_error
  deduct now r.buyer_id r.amount xmr
  deal ← Repo.create now id hash (terms_of r)
  deal' ← set_up_milestones id deal r.milestones
  audit_log "escrow.created" (some r.buyer_id) (some id)
  pure deal'

-- `if seller and not seller.is_active`
abbrev pub is_deactivated : ℕ → Db → Bool
is_deactivated agent db = elim (find agent db.agents) [ none ↦ false | some a ↦ not a.is_active ]

abbrev pub has_passed : ℕ → Option ℕ → Bool
has_passed now none = false
has_passed now (some deadline) = ltb deadline now

-- Activates a milestone that is there and pending; the row's own time limit counts.
abbrev pub activate_pending : ℕ → ℕ → ℕ → Option EscrowMilestone → Action Db (Unit {0})
activate_pending now id seq none = pure tt
activate_pending now id seq (some m) =
    if Milestone.is_pending m.status
    then MilestoneRepo.activate now id seq m.delivery_timeout_hours >> pure tt
    else pure tt

unfoldable pub accept_escrow : ℕ → ℕ → ℕ → Action Db EscrowDeal
unfolding Repo.accept MilestoneRepo.activate
accept_escrow now id seller = do
  deal ← or_raise (← get_by_id_for_update id) lookup_error
  raise_if (not (deal.seller_id == seller)) permission_error
  raise_if (not (is_created deal.status)) value_error
  raise_if (has_passed now deal.accept_deadline) value_error
  raise_if (← gets (is_deactivated seller)) value_error
  Repo.accept now id deal.delivery_timeout_hours
  first ← MilestoneRepo.get_by_escrow_and_sequence id 1
  when deal.is_multi_milestone (activate_pending now id 1 first)
  audit_log "escrow.accepted" (some seller) (some id)
  refetch id

unfoldable pub deliver_escrow : ℕ → ℕ → ℕ → Action Db EscrowDeal
unfolding Repo.deliver
deliver_escrow now id seller = do
  deal ← or_raise (← get_by_id_for_update id) lookup_error
  raise_if deal.is_multi_milestone value_error
  raise_if (not (deal.seller_id == seller)) permission_error
  raise_if (not (is_accepted deal.status)) value_error
  Repo.deliver now id deal.review_timeout_hours
  audit_log "escrow.delivered" (some seller) (some id)
  refetch id

-- The credits of a release: the seller's share and the buyer's refund, where positive.
abbrev pub pay_out : ℕ → EscrowDeal → ℤ → ℤ → Action Db (Unit {0})
pay_out now deal seller_receives refund = do
  credit_positive now deal.seller_id seller_receives (or_default deal.token xmr)
  credit_positive now deal.buyer_id refund (or_default deal.token xmr)

unfoldable pub release_escrow : ℕ → ℕ → ℕ → ℤ → Action Db EscrowDeal
unfolding credit_positive record_fee Repo.release apply_completion_trust
release_escrow now id buyer amount = do
  deal ← or_raise (← get_by_id_for_update id) lookup_error
  raise_if deal.is_multi_milestone value_error
  raise_if (not (deal.buyer_id == buyer)) permission_error
  raise_if (not (is_delivered deal.status)) value_error
  raise_if (ltb_ℤ amount (pos 0) || ltb_ℤ deal.amount amount) value_error
  let fee = fee_of amount deal.fee_percent
  pay_out now deal (amount -ℤ fee) (deal.amount -ℤ amount)
  record_fee FeeSource.escrow id (or_default deal.token xmr) fee
  Repo.release now id amount fee
  apply_completion_trust now deal.buyer_id deal.seller_id amount deal.amount
  audit_log "escrow.completed" (some buyer) (some id)
  refetch id

unfoldable pub cancel_escrow : ℕ → ℕ → ℕ → Action Db EscrowDeal
unfolding credit Repo.cancel
cancel_escrow now id buyer = do
  deal ← or_raise (← get_by_id_for_update id) lookup_error
  raise_if (not (deal.buyer_id == buyer)) permission_error
  raise_if (not (is_created deal.status)) value_error
  credit now deal.buyer_id deal.amount (or_default deal.token xmr)
  Repo.cancel now id
  audit_log "escrow.cancelled" (some buyer) (some id)
  refetch id

unfoldable pub get_escrow : ℕ → ℕ → Action Db EscrowDeal
get_escrow id agent = do
  deal ← or_raise (← get_by_id id) lookup_error
  raise_if (not (deal.buyer_id == agent) && not (deal.seller_id == agent)) lookup_error
  pure deal
