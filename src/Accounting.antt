-- ===== src/Accounting.antt =====
-- The platform's books. What it holds of a token is the available balances, the fees collected, the
-- amounts in escrow, the deposits in channels, the collateral of loans and the amounts that
-- conditional and group payments keep locked.
use sthrip.Base.{ℕ, Bool, Option, none, some, or_default, if◌then◌else◌}
use sthrip.Base.Int.{ℤ, pos, ◌+ℤ◌, ltb_ℤ}
use sthrip.Base.Table.{Table, sum}
use sthrip.Models.Parties.{xmr}
use sthrip.Models.Milestone.{EscrowMilestone, MilestoneStatus}
use sthrip.Models.Escrow.{EscrowDeal, EscrowStatus}
use sthrip.Models.Channel.{PaymentChannel, ChannelStatus}
use sthrip.Models.Lending.{AgentLoan, LoanStatus}
use sthrip.Models.Payments.{
  ConditionalPayment, ConditionalPaymentState, MultiPartyPayment, MultiPartyPaymentState,
  MultiPartyRecipient,
}
use sthrip.Models.Database.{Db}
use sthrip.Ledger.Held.{held, counted}
use sthrip.Fees.{fee_sum}

-- What a milestone holds until it is released, expires or is cancelled.
abbrev pub unreleased : MilestoneStatus → ℤ → ℤ
unreleased MilestoneStatus.pending amount = amount
unreleased MilestoneStatus.active amount = amount
unreleased MilestoneStatus.delivered amount = amount
unreleased _ amount = pos 0

abbrev pub open_milestone : EscrowMilestone → ℤ
open_milestone m = unreleased m.status m.amount

abbrev pub open_amount : Table EscrowMilestone → ℤ
open_amount = sum open_milestone

-- What a deal holds: all of it until it is accepted; then, milestone by milestone, what is open.
abbrev pub escrowed_by : EscrowStatus → Bool → ℤ → ℤ → ℤ
escrowed_by EscrowStatus.created multi amount left = amount
escrowed_by EscrowStatus.accepted multi amount left = if multi then left else amount
escrowed_by EscrowStatus.delivered multi amount left = amount
escrowed_by _ multi amount left = pos 0

abbrev pub escrowed : EscrowDeal → ℤ
escrowed d = escrowed_by d.status d.is_multi_milestone d.amount (open_amount d.milestones)

unfoldable pub in_escrow : ℕ → EscrowDeal → ℤ
in_escrow u d = counted u (or_default d.token xmr) (escrowed d)

-- What a channel holds until it is closed.
abbrev pub deposited_by : ChannelStatus → ℤ → ℤ
deposited_by ChannelStatus.closed amount = pos 0
deposited_by ChannelStatus.pending amount = pos 0
deposited_by _ amount = amount

unfoldable pub in_channel : ℕ → PaymentChannel → ℤ
in_channel u c = counted u xmr (deposited_by c.status (c.deposit_a +ℤ c.deposit_b))

-- What a loan has locked: collateral that is not positive was never taken.
abbrev pub locked_collateral : Option ℤ → ℤ
locked_collateral none = pos 0
locked_collateral (some x) = if ltb_ℤ (pos 0) x then x else pos 0

-- The collateral that the platform keeps until the loan is repaid or in default.
abbrev pub pledged_by : LoanStatus → ℤ → ℤ
pledged_by LoanStatus.requested amount = amount
pledged_by LoanStatus.active amount = amount
pledged_by _ amount = pos 0

unfoldable pub in_pledge : ℕ → AgentLoan → ℤ
in_pledge u l =
    counted u (or_default l.collateral_currency l.currency)
      (pledged_by l.state (locked_collateral l.collateral_amount))

-- What a conditional payment keeps until it is paid out or given back.
abbrev pub locked_by : ConditionalPaymentState → ℤ → ℤ
locked_by ConditionalPaymentState.pending amount = amount
locked_by ConditionalPaymentState.triggered amount = amount
locked_by _ amount = pos 0

unfoldable pub in_lock : ℕ → ConditionalPayment → ℤ
in_lock u p = counted u p.currency (locked_by p.state p.locked_amount)

-- What a group payment keeps while it is open. Where all must accept it is the whole amount;
-- otherwise it is the amounts of the recipients that have not answered.
abbrev pub unanswered : MultiPartyRecipient → ℤ
unanswered r = elim r.accepted [ none ↦ r.amount | some _ ↦ pos 0 ]

abbrev pub grouped_by : MultiPartyPaymentState → Bool → ℤ → ℤ → ℤ
grouped_by MultiPartyPaymentState.pending all total left = if all then total else left
grouped_by _ all total left = pos 0

unfoldable pub in_group : ℕ → MultiPartyPayment → ℤ
in_group u p =
    counted u p.currency
      (grouped_by p.state p.require_all_accept p.total_amount (sum unanswered p.recipients))

-- The books of token `u`.
unfoldable pub assets : ℕ → Db → ℤ
assets u db =
    held u db.balances
    +ℤ fee_sum u db.fees
    +ℤ sum (in_escrow u) db.deals
    +ℤ sum (in_channel u) db.channels
    +ℤ sum (in_pledge u) db.loans
    +ℤ sum (in_lock u) db.conditionals
    +ℤ sum (in_group u) db.group_payments
