-- ===== src/Scenarios/World.antt =====
-- The databases of the runs: two agents, and deals in several statuses.
use sthrip.Base.{none, some, [], ◌∷◌, true, false, ◌≡◌, refl, arith}
use sthrip.Base.Int.{ℤ, pos}
use sthrip.Base.Table.{Table, find, All}
use sthrip.Models.Parties.{Agent, AgentTier, AgentReputation, AgentBalance}
use sthrip.Models.Milestone.{EscrowMilestone, MilestoneStatus}
use sthrip.Models.Escrow.{EscrowDeal, EscrowStatus}
use sthrip.Models.Database.{Db}
use sthrip.Escrow.WellFormed.{IsWellFormed}

abbrev pub row : ℤ → AgentBalance
row x = record {
  available = x;
  pending = pos 300;
  total_deposited = x;
  total_withdrawn = pos 0;
  deposit_address = none;
  updated_at = 0;
}

abbrev pub part : MilestoneStatus → ℤ → EscrowMilestone
part status amount = record {
  description = "a part";
  amount = amount;
  delivery_timeout_hours = 24;
  review_timeout_hours = 24;
  delivery_deadline = none;
  review_deadline = none;
  release_amount = none;
  fee_amount = pos 0;
  status = status;
  activated_at = none;
  delivered_at = none;
  completed_at = none;
  cancelled_at = none;
  expires_at = none;
}

abbrev deal : EscrowStatus → ℤ → EscrowDeal
deal status amount = record {
  deal_hash = "hash";
  buyer_id = 1;
  seller_id = 2;
  amount = amount;
  token = some 0;
  description = "work";
  fee_percent = 100;
  fee_amount = pos 0;
  accept_timeout_hours = 24;
  delivery_timeout_hours = 48;
  review_timeout_hours = 24;
  accept_deadline = some 90;
  delivery_deadline = none;
  review_deadline = none;
  release_amount = none;
  is_multi_milestone = false;
  milestone_count = 1;
  current_milestone = 1;
  total_released = pos 0;
  total_fees = pos 0;
  status = status;
  created_at = 0;
  accepted_at = none;
  delivered_at = none;
  completed_at = none;
  cancelled_at = none;
  expires_at = some 90;
  milestones = [];
}

abbrev pub offered : EscrowDeal
offered = deal EscrowStatus.created (pos 1000)

abbrev pub taken : EscrowDeal
taken = deal EscrowStatus.accepted (pos 1000)

abbrev pub handed_over : EscrowDeal
handed_over = deal EscrowStatus.delivered (pos 1000)

abbrev in_parts : Table EscrowMilestone → EscrowDeal
in_parts ms = record (deal EscrowStatus.accepted (pos 1000)) {
  is_multi_milestone = true;
  milestone_count = 2;
  milestones = ms;
}

abbrev pub first_delivered : EscrowMilestone
first_delivered = part MilestoneStatus.delivered (pos 600)

abbrev pub first_active : EscrowMilestone
first_active = part MilestoneStatus.active (pos 600)

abbrev second_pending : EscrowMilestone
second_pending = part MilestoneStatus.pending (pos 400)

abbrev pub reviewed_part : EscrowDeal
reviewed_part = in_parts ((1, first_delivered) ∷ (2, second_pending) ∷ [])

abbrev pub working_part : EscrowDeal
working_part = in_parts ((1, first_active) ∷ (2, second_pending) ∷ [])

abbrev pub half_done : EscrowDeal
half_done =
    record (in_parts (
      (1, part MilestoneStatus.completed (pos 600))
      ∷ (2, part MilestoneStatus.active (pos 400))
      ∷ [])) { total_released = pos 600; total_fees = pos 6; current_milestone = 2 }

abbrev pub agent : Agent
agent = record { agent_name = "agent"; tier = AgentTier.free; is_active = true; created_at = none }

abbrev trusted : AgentReputation
trusted = record { trust_score = pos 50; total_transactions = 3; calculated_at = none }

abbrev pub world : Db
world = record {
  agents = (1, agent) ∷ (2, agent) ∷ [];
  reputations = (1, trusted) ∷ (2, trusted) ∷ [];
  balances = (1, 0, row (pos 5000)) ∷ (2, 0, row (pos 10)) ∷ [];
  fees = [];
  deals =
      (11, offered)
      ∷ (12, taken)
      ∷ (13, handed_over)
      ∷ (14, reviewed_part)
      ∷ (15, working_part)
      ∷ (16, half_done)
      ∷ [];
  channels = [];
  updates = [];
  loans = [];
  offers = [];
  credits = [];
  conditionals = [];
  group_payments = [];
  streams = [];
  transactions = [];
  monthly_stats = [];
  recurring = [];
  templates = [];
  contracts = [];
  swaps = [];
  journal = [];
  own_audits = [];
}

whole-IsWellFormed : (status : EscrowStatus) → IsWellFormed (deal status (pos 1000))
whole-IsWellFormed status = record {
  rate_fits = omega arith;
  amount_positive = omega arith;
  parts_positive = tt;
  parts_distinct = tt;
  parts_counted = λ m. cc;
  parts_add_up = λ m st. cc;
}

pub handed_over-IsWellFormed : IsWellFormed handed_over
handed_over-IsWellFormed = whole-IsWellFormed EscrowStatus.delivered

pub taken-IsWellFormed : IsWellFormed taken
taken-IsWellFormed = whole-IsWellFormed EscrowStatus.accepted

pub reviewed_part-IsWellFormed : IsWellFormed reviewed_part
unfolding find
reviewed_part-IsWellFormed = record {
  rate_fits = omega arith;
  amount_positive = omega arith;
  parts_positive = (omega arith, (omega arith, tt));
  parts_distinct = (refl, (refl, tt));
  parts_counted = λ m. refl;
  parts_add_up = λ m st. cc;
}

working_part-IsWellFormed : IsWellFormed working_part
unfolding find
working_part-IsWellFormed = record {
  rate_fits = omega arith;
  amount_positive = omega arith;
  parts_positive = (omega arith, (omega arith, tt));
  parts_distinct = (refl, (refl, tt));
  parts_counted = λ m. refl;
  parts_add_up = λ m st. cc;
}

half_done-IsWellFormed : IsWellFormed half_done
unfolding find
half_done-IsWellFormed = record {
  rate_fits = omega arith;
  amount_positive = omega arith;
  parts_positive = (omega arith, (omega arith, tt));
  parts_distinct = (refl, (refl, tt));
  parts_counted = λ m. refl;
  parts_add_up = λ m st. cc;
}

pub world-IsWellFormed : All IsWellFormed world.deals
world-IsWellFormed = (
  whole-IsWellFormed EscrowStatus.created,
  (
    taken-IsWellFormed,
    (
      handed_over-IsWellFormed,
      (reviewed_part-IsWellFormed, (working_part-IsWellFormed, (half_done-IsWellFormed, tt))),
    ),
  ),
)

pub finds_offered : find 11 world.deals ≡ some offered
unfolding find
finds_offered = refl

pub finds_taken : find 12 world.deals ≡ some taken
unfolding find
finds_taken = refl

pub finds_handed_over : find 13 world.deals ≡ some handed_over
unfolding find
finds_handed_over = refl

pub finds_reviewed_part : find 14 world.deals ≡ some reviewed_part
unfolding find
finds_reviewed_part = refl

pub finds_working_part : find 15 world.deals ≡ some working_part
unfolding find
finds_working_part = refl

pub finds_half_done : find 16 world.deals ≡ some half_done
unfolding find
finds_half_done = refl

pub finds_first_delivered : find 1 reviewed_part.milestones ≡ some first_delivered
unfolding find
finds_first_delivered = refl

pub finds_first_active : find 1 working_part.milestones ≡ some first_active
unfolding find
finds_first_active = refl

abbrev pub second_active : EscrowMilestone
second_active = part MilestoneStatus.active (pos 400)

pub finds_second_active : find 2 half_done.milestones ≡ some second_active
unfolding find
finds_second_active = refl
