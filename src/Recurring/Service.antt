-- ===== src/Recurring/Service.antt =====
-- The methods of `RecurringService` (sthrip/services/recurring_service.py). It passes `audit_log`
-- no `db`.
use sthrip.Base.{
  ℕ, suc, ◌+◌, ◌/◌, Option, none, some, Bool, false, not, ◌&&◌, ◌==◌, leb, if◌then◌else◌,
}
use sthrip.Base.Int.{ℤ, pos, negsuc, neg_ℕ, ◌-ℤ◌, ltb_ℤ, leb_ℤ}
use sthrip.Base.Counts.{count_each}
use sthrip.Base.Action.{
  Action, pure, gets, or_raise, raise_if, ◌>>=◌, ◌>>◌, value_error, lookup_error, permission_error,
  runtime_error,
}
use sthrip.Models.Parties.{xmr}
use sthrip.Models.Transfers.{RecurringPayment, RecurringInterval}
use sthrip.Models.Database.{Db, queue_webhook_with_db, audit_log_apart}
use sthrip.Ledger.Rows.{credit, deduct, get_available}
use sthrip.Escrow.Repo.{hours}
use sthrip.Channel.Service.{quantize}
use sthrip.Recurring.Repo
use sthrip.Recurring.Repo.{Terms, get_by_id}

-- A month counts as thirty days.
abbrev pub calculate_next_payment : RecurringInterval → ℕ → ℕ
calculate_next_payment RecurringInterval.hourly t = t + hours 1
calculate_next_payment RecurringInterval.daily t = t + hours 24
calculate_next_payment RecurringInterval.weekly t = t + hours 168
calculate_next_payment RecurringInterval.monthly t = t + hours 720

unfoldable pub create_subscription : ℕ → ℕ → Terms → Action Db RecurringPayment
unfolding Repo.create
create_subscription now id r = do
  raise_if (r.from_agent_id == r.to_agent_id) value_error
  raise_if (leb_ℤ r.amount (pos 0)) value_error
  payment ← Repo.create now id (calculate_next_payment r.interval now) r
  audit_log_apart "recurring.created" (some r.from_agent_id)
  queue_webhook_with_db
  pure payment

unfoldable pub cancel_subscription : ℕ → ℕ → ℕ → Action Db RecurringPayment
unfolding Repo.cancel
cancel_subscription now id agent = do
  payment ← or_raise (← get_by_id id) lookup_error
  raise_if (not (payment.from_agent_id == agent) && not (payment.to_agent_id == agent))
      permission_error
  Repo.cancel now id
  refreshed ← or_raise (← get_by_id id) runtime_error
  audit_log_apart "recurring.cancelled" (some agent)
  queue_webhook_with_db
  pure refreshed

unfoldable pub update_subscription :
    ℕ → ℕ → Option ℤ → Option RecurringInterval → Action Db RecurringPayment
unfolding Repo.update
update_subscription id agent amount interval = do
  payment ← or_raise (← get_by_id id) lookup_error
  raise_if (not (agent == payment.from_agent_id)) permission_error
  Repo.update id amount interval
  refreshed ← or_raise (← get_by_id id) runtime_error
  audit_log_apart "recurring.updated" (some agent)
  queue_webhook_with_db
  pure refreshed

-- One percent, in 10^-8 coin.
abbrev pub fee_of : ℤ → ℤ
fee_of (pos n) = pos (quantize (n / 100))
fee_of (negsuc n) = neg_ℕ (quantize (suc n / 100))

-- `payment.max_payments is not None and new_payments_made >= payment.max_payments`
abbrev pub is_complete : RecurringPayment → Bool
is_complete p = elim p.max_payments [ none ↦ false | some n ↦ leb n (suc p.payments_made) ]

abbrev pub cancel_if : ℕ → ℕ → Option RecurringPayment → Action Db ℕ
cancel_if now id none = pure 1
cancel_if now id (some payment) =
    if is_complete payment then (Repo.cancel now id >> pure 1) else pure 1

-- The transfer of a due payment. `payment` is the session's object for the row: the UPDATE of
-- `record_payment` brings its attributes up to date, and what follows reads those.
unfoldable pub pay_due : ℕ → ℕ → RecurringPayment → Action Db ℕ
unfolding deduct credit Repo.record_payment Repo.cancel
pay_due now id payment = do
  deduct now payment.from_agent_id payment.amount xmr
  credit now payment.to_agent_id (payment.amount -ℤ fee_of payment.amount) xmr
  Repo.record_payment now id (calculate_next_payment payment.interval now)
  updated ← get_by_id id
  cancel_if now id updated

abbrev pub pay_if : ℕ → ℕ → RecurringPayment → ℤ → Action Db ℕ
pay_if now id payment available =
    if ltb_ℤ available payment.amount then pure 0 else pay_due now id payment

abbrev pub execute_found : ℕ → ℕ → Option RecurringPayment → Action Db ℕ
execute_found now id none = pure 0
execute_found now id (some payment) =
    if payment.is_active
    then (get_available now payment.from_agent_id xmr >>= λ available.
        pay_if now id payment available)
    else pure 0

-- One iteration of `execute_due_payments`: how many payments it made.
unfoldable pub execute_one : ℕ → ℕ → Action Db ℕ
unfolding get_available pay_due
execute_one now id = do payment ← get_by_id id; execute_found now id payment

unfoldable pub execute_due_payments : ℕ → Action Db ℕ
unfolding execute_one count_each
execute_due_payments now = do
  due_payments ← gets (λ (db : Db). Repo.get_due_payments now db.recurring)
  count_each (execute_one now) due_payments
