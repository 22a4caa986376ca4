-- ===== src/Models/Database.antt =====
-- The session's view of the database: one table for each model.
use sthrip.Base.{◌≡◌, ◌⊎◌, [], arith, ℕ, List, ◌∷◌, String, Option, none}
use sthrip.Base.Table.{Table}
use sthrip.Base.Action.{Action, modify, raise, type_error, settle_state, Raised}
use sthrip.Models.Parties.{
  Agent, AgentReputation, AgentBalance, AgentMonthlyStats, FeeCollection, Entry, audit, webhook,
}
use sthrip.Models.Escrow.{EscrowDeal}
use sthrip.Models.Channel.{PaymentChannel, ChannelUpdate}
use sthrip.Models.Payments.{ConditionalPayment, MultiPartyPayment, PaymentStream}
use sthrip.Models.Lending.{AgentLoan, LendingOffer, AgentCreditScore}
use sthrip.Models.Transfers.{Transaction, RecurringPayment}
use sthrip.Models.Agreements.{SlaTemplate, SlaContract}
use sthrip.Models.Swaps.{SwapOrder}

-- The rows of `agent_balances`, by agent and token (`uq_agent_balance`).
abbrev pub Balances : Type 0
Balances = List (ℕ × ℕ × AgentBalance)

-- The rows of `agent_monthly_stats`, by agent and first day of the month.
abbrev pub MonthlyStats : Type 0
MonthlyStats = List (ℕ × ℕ × AgentMonthlyStats)

pub record Db : Type 0 where
  pub agents : Table Agent
  pub reputations : Table AgentReputation
  pub balances : Balances
  pub fees : List FeeCollection
  pub deals : Table EscrowDeal
  pub channels : Table PaymentChannel
  pub updates : List ChannelUpdate
  pub loans : Table AgentLoan
  pub offers : Table LendingOffer
  pub credits : Table AgentCreditScore
  pub conditionals : Table ConditionalPayment
  pub group_payments : Table MultiPartyPayment
  pub streams : Table PaymentStream
  pub transactions : Table Transaction
  pub monthly_stats : MonthlyStats
  pub recurring : Table RecurringPayment
  pub templates : Table SlaTemplate
  pub contracts : Table SlaContract
  pub swaps : Table SwapOrder
  pub journal : List Entry
  -- Audit rows that calls have committed in sessions of their own.
  pub own_audits : List Entry

abbrev pub log : Entry → Action Db (Unit {0})
log e = modify (λ db. record db { journal = e ∷ db.journal })

-- `audit_log(action=…, agent_id=…, resource_id=…, db=db)`
abbrev pub audit_log : String → Option ℕ → Option ℕ → Action Db (Unit {0})
audit_log action agent resource = log (audit action agent resource)

-- `audit_log(…)` without `db`: `log_event` commits the row in a session of its own.
abbrev pub audit_log_apart : String → Option ℕ → Action Db (Unit {0})
audit_log_apart action agent =
    modify (λ db. record db { own_audits = audit action agent none ∷ db.own_audits })

-- `transact` for calls that commit such rows, which a rollback does not take back.
unfoldable pub transact_apart : {A : Type 0} → Action Db A → Action Db A
transact_apart m db =
    let (r, db') = m db in (r, record (settle_state db r db') { own_audits = db'.own_audits })

-- `queue_webhook(str(agent_id), event_type, payload)`
abbrev pub queue_webhook : ℕ → String → Action Db (Unit {0})
queue_webhook agent event = log (webhook agent event)

-- `audit_log(…, new_values=…)`: `log_event` of sthrip/services/audit_logger.py has no such parameter,
-- so the call itself is an error.
abbrev pub audit_log_with_new_values : Action Db (Unit {0})
audit_log_with_new_values = raise type_error

-- `queue_webhook(db, …)` and `queue_webhook(db=db, …)`: it takes an agent, an event and a payload
-- alone, so the call itself is an error.
abbrev pub queue_webhook_with_db : Action Db (Unit {0})
queue_webhook_with_db = raise type_error

-- The transaction of a call that raised leaves what was there, but for rows committed apart.
pub transact_apart-Raised :
    {A : Type 0} (m : Action Db A) (db : Db)
    → Raised (m db).0
    → (transact_apart m db).1 ≡ record db { own_audits = (m db).1.own_audits }
unfolding transact_apart
transact_apart-Raised m db h = ground arith

abbrev pub OneOf : List Entry → List (List Entry) → Type 0
OneOf rows [] = ⊥
OneOf rows (r ∷ rs) = (rows ≡ r) ⊎ OneOf rows rs

-- Nothing differs but the rows committed apart, which are as before or one of the lists given.
abbrev pub Abandoned : Db → Db → List (List Entry) → Type 0
Abandoned db db' lists =
    (db' ≡ record db { own_audits = db'.own_audits }) × OneOf db'.own_audits (db.own_audits ∷ lists)
