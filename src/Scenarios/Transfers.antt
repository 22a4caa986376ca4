-- ===== src/Scenarios/Transfers.antt =====
-- Runs of transfers between agents, single and split, and of recurring payments.
use sthrip.Base.{
  ℕ, ◌≡◌, ◌⊎◌, ◌*◌, ◌+◌, ◌≤◌, ◌<◌, none, some, List, [], ◌∷◌, true, false, refl, arith, ◌==◌,
  if◌then◌else◌,
}
use sthrip.Base.Int.{pos, ◌+ℤ◌, ◌-ℤ◌, ◌≤ℤ◌}
use sthrip.Base.Table.{find}
use sthrip.Base.Action.{ok, transact, Raised}
use sthrip.Models.Parties.{AgentTier, audit}
use sthrip.Models.Transfers.{
  Transaction, PaymentType, TransactionStatus, RecurringPayment, RecurringInterval,
}
use sthrip.Models.Database.{Db}
use sthrip.Accounting.{assets}
use sthrip.Ledger.Balance.{available_of}
use sthrip.Ledger.Rows.{find_row}
use sthrip.Transfer.Commission.{fee_for, fee_for_bounds}
use sthrip.Transfer.Tiers.{get_tier}
use sthrip.Transfer.Repo.{Transfer, replayed, create_with_commission, find_by_hash}
use sthrip.Transfer.Outcomes.{Payable, paid_transaction, paid_state, create_with_commission_outcome}
use sthrip.Transfer.Charges.{create_with_commission-assets, repeat_charges_nothing}
use sthrip.Transfer.Split.{Share, Payee, resolve, resolve_one, get_by_name, total_of, pay_split}
use sthrip.Transfer.Shares.{share_of}
use sthrip.Transfer.Paying.{pay_split_pays}
use sthrip.Recurring.Repo.{Terms}
use sthrip.Recurring.Service.{
  create_subscription, cancel_subscription, update_subscription, execute_one, execute_due_payments,
}
use sthrip.Recurring.Charges.{
  accounted, execute_due_payments-accounted, schedule_ends_early, payments_made,
}
use sthrip.Scenarios.World.{world, agent, row}
use sthrip.Recurring.Commit.{Fails, schedules_never_commit}

abbrev rich : Db
rich = record world {
  agents = (1, agent) ∷ (2, record agent { agent_name = "other" }) ∷ [];
  balances = (1, 0, row (pos 50000000)) ∷ [];
}

abbrev request : Transfer
request = record {
  tx_hash = "hash";
  network = "hub";
  from_agent_id = 1;
  to_agent_id = 2;
  amount_piconero = pos 1000;
  token = 0;
  payment_type = PaymentType.hub_routing;
  status = TransactionStatus.confirmed;
  memo = none;
  idempotency_key = some "key";
}

abbrev paid : Transaction
paid = paid_transaction (some []) 60 1 71 request rich 1000

abbrev paid_world : Db
paid_world = paid_state (some []) 60 1 71 request rich 1000

fee_for_bounds_example :
    let exact = 1000 * 30 in
    let fee = fee_for 1000 AgentTier.free in
    (1 ≤ fee)
    × (◌⊎◌ (◌≡◌ {A = ℕ} 1000 0) (fee ≤ 1000))
    × (((fee ≡ 1) × (exact < 15000))
        ⊎ ((10000 * fee ≤ exact + 5000) × (exact + 5000 < 10000 * fee + 10000)))
    × (fee ≤ fee_for 2000 AgentTier.free)
    × (fee ≤ fee_for 1000 AgentTier.free)
fee_for_bounds_example = fee_for_bounds 1000 2000 AgentTier.free (omega arith)

create_with_commission_outcome_example :
    let call = create_with_commission (some []) 60 1 71 request rich in
    ((tx : Transaction) × (replayed request rich ≡ some tx) × (call ≡ (ok (tx, some []), rich)))
    ⊎ ((replayed request rich ≡ none)
        × ((Payable (some []) 60 1 71 request rich 1000
              × (call ≡ (ok (paid, (get_tier (some []) 1 rich).1), paid_world)))
            ⊎ ((¬ Payable (some []) 60 1 71 request rich 1000) × Raised call.0)))
create_with_commission_outcome_example =
    create_with_commission_outcome (some []) 60 1 71 request rich 1000 refl

create_with_commission-assets_example :
    assets 0 (transact (create_with_commission (some []) 60 1 71 request) rich).1 ≡ assets 0 rich
create_with_commission-assets_example =
    create_with_commission-assets (some []) 60 1 71 request rich 0

-- The first request is paid.
is_paid :
    create_with_commission (some []) 60 1 71 request rich
    ≡ (ok (paid, (get_tier (some []) 1 rich).1), paid_world)
unfolding create_with_commission find_by_hash find_row ◌+ℤ◌ find
is_paid = refl

repeat_charges_nothing_example :
    create_with_commission none 99 2 72 request paid_world ≡ (ok (paid, none), paid_world)
repeat_charges_nothing_example =
    repeat_charges_nothing (some []) none 60 1 71 99 2 72 request "key" paid
      (get_tier (some []) 1 rich).1 rich paid_world refl is_paid

abbrev share : Share
share = record { agent_name = "other"; amount = pos 300; tx_id = 73; tx_hash = "part" }

abbrev payees : List Payee
payees = record { agent_id = 2; share = share } ∷ []

resolves : (resolve 1 (share ∷ []) rich).0 ≡ ok payees
unfolding resolve resolve_one get_by_name
resolves = refl

enough : total_of payees ≤ℤ available_of 1 0 rich
unfolding total_of available_of find_row ◌+ℤ◌
enough = omega arith

new_key : find 73 rich.transactions ≡ none
unfolding find
new_key = refl

new_hash : find_by_hash "part" rich.transactions ≡ none
unfolding find_by_hash
new_hash = refl

pay_split_pays_example :
    (receipts : List Transaction) × (db' : Db) × (pay_split 60 1 (share ∷ []) 0 none rich
      ≡ (ok receipts, db'))
    × (share_of 1 payees ≡ pos 0)
    × ((j u : ℕ)
        → available_of j u db' ≡ (
            if 0 == u
            then (available_of j u rich +ℤ share_of j payees)
              -ℤ (if 1 == j then total_of payees else pos 0)
            else available_of j u rich))
pay_split_pays_example =
    pay_split_pays 60 1 0 none share [] rich payees resolves enough (new_key, new_hash, tt)

abbrev schedule : RecurringPayment
schedule = record {
  from_agent_id = 1;
  to_agent_id = 2;
  amount = pos 400;
  interval = RecurringInterval.daily;
  next_payment_at = 50;
  last_payment_at = none;
  total_paid = pos 0;
  max_payments = some 2;
  payments_made = 0;
  is_active = true;
  created_at = 0;
  cancelled_at = none;
}

abbrev scheduled : Db
scheduled = record rich { recurring = (81, schedule) ∷ [] }

abbrev terms : Terms
terms = record {
  from_agent_id = 1;
  to_agent_id = 2;
  amount = pos 400;
  interval = RecurringInterval.daily;
  max_payments = some 2;
}

schedules_never_commit_example :
    Fails
      (create_subscription 60 82 terms)
      scheduled
      (audit "recurring.created" (some terms.from_agent_id) none)
    × Fails (cancel_subscription 60 82 1) scheduled (audit "recurring.cancelled" (some 1) none)
    × Fails (update_subscription 82 1 none none) scheduled (audit "recurring.updated" (some 1) none)
schedules_never_commit_example = schedules_never_commit 60 82 1 terms none none scheduled

execute_due_payments-accounted_example :
    ((n : ℕ) × ((execute_due_payments 60 scheduled).0 ≡ ok n)
      × (payments_made (execute_due_payments 60 scheduled).1 ≡ payments_made scheduled +ℤ pos n))
    × (accounted 0 (execute_due_payments 60 scheduled).1 ≡ accounted 0 scheduled)
execute_due_payments-accounted_example = execute_due_payments-accounted 0 60 scheduled

finds_schedule : find 81 scheduled.recurring ≡ some schedule
unfolding find
finds_schedule = refl

affordable : schedule.amount ≤ℤ available_of 1 0 scheduled
unfolding available_of find_row
affordable = omega arith

schedule_ends_early_example :
    (p' : RecurringPayment) × (find 81 (execute_one 60 81 scheduled).1.recurring ≡ some p')
    × (p'.payments_made ≡ 1)
    × (p'.is_active ≡ false)
schedule_ends_early_example =
    schedule_ends_early 60 81 schedule scheduled finds_schedule refl refl affordable
