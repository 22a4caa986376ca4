-- ===== src/Conditional/Repo.antt =====
-- `ConditionalPaymentRepository` (sthrip/db/conditional_payment_repo.py).
use sthrip.Base.{ℕ, String, Option, none, some, ◌∷◌, Bool, ◌&&◌, leb, if◌then◌else◌, is_some, List}
use sthrip.Base.Int.{ℤ}
use sthrip.Base.Table.{Table, find, update_where}
use sthrip.Base.Keys.{keys_where}
use sthrip.Base.Action.{Action, ok, err, integrity_error, gets}
use sthrip.Models.Payments.{
  ConditionalPayment, ConditionalPaymentState, ConditionType, ConditionConfig, is_pending,
  is_triggered,
}
use sthrip.Models.Database.{Db}

pub record Terms : Type 0 where
  pub from_agent_id : ℕ
  pub to_agent_id : ℕ
  pub amount : ℤ
  pub currency : ℕ
  pub condition_type : ConditionType
  pub condition_config : ConditionConfig
  pub expires_hours : ℤ
  pub memo : Option String

abbrev pub new_payment : ℕ → String → ℕ → Terms → ConditionalPayment
new_payment now hash expires_at r = record {
  payment_hash = hash;
  from_agent_id = r.from_agent_id;
  to_agent_id = r.to_agent_id;
  amount = r.amount;
  currency = r.currency;
  memo = r.memo;
  condition_type = r.condition_type;
  condition_config = r.condition_config;
  locked_amount = r.amount;
  state = ConditionalPaymentState.pending;
  expires_at = expires_at;
  created_at = now;
  triggered_at = none;
  executed_at = none;
}

unfoldable pub create : ℕ → ℕ → String → ℕ → Terms → Action Db ConditionalPayment
create now id hash expires_at r db =
    let payment = new_payment now hash expires_at r in
    if is_some (find id db.conditionals)
    then (err integrity_error, db)
    else (ok payment, record db { conditionals = (id, payment) ∷ db.conditionals })

-- `get_by_id`, and `get_by_id_for_update`, which locks the row too.
abbrev pub get_by_id : ℕ → Action Db (Option ConditionalPayment)
get_by_id id = gets (λ db. find id db.conditionals)

abbrev pub update_payment :
    ℕ → (ConditionalPayment → Bool) → (ConditionalPayment → ConditionalPayment) → Action Db ℕ
update_payment id p f db =
    let (rows, conditionals) = update_where id p f db.conditionals in
    (ok rows, record db { conditionals = conditionals })

abbrev pub triggered_payment : ℕ → ConditionalPayment → ConditionalPayment
triggered_payment now p = record p {
  state = ConditionalPaymentState.triggered;
  triggered_at = some now;
}

unfoldable pub trigger : ℕ → ℕ → Action Db ℕ
trigger now id = update_payment id (λ p. is_pending p.state) (triggered_payment now)

abbrev pub executed_payment : ℕ → ConditionalPayment → ConditionalPayment
executed_payment now p = record p {
  state = ConditionalPaymentState.executed;
  executed_at = some now;
}

unfoldable pub execute : ℕ → ℕ → Action Db ℕ
execute now id = update_payment id (λ p. is_triggered p.state) (executed_payment now)

abbrev pub expired_payment : ConditionalPayment → ConditionalPayment
expired_payment p = record p { state = ConditionalPaymentState.expired }

unfoldable pub expire : ℕ → Action Db ℕ
expire id = update_payment id (λ p. is_pending p.state) expired_payment

abbrev pub cancelled_payment : ConditionalPayment → ConditionalPayment
cancelled_payment p = record p { state = ConditionalPaymentState.cancelled }

unfoldable pub cancel : ℕ → Action Db ℕ
cancel id = update_payment id (λ p. is_pending p.state) cancelled_payment

abbrev pub has_expired : ℕ → ConditionalPayment → Bool
has_expired now p = is_pending p.state && leb p.expires_at now

-- The keys of the rows that the query of `get_pending_expired` finds.
abbrev pub get_pending_expired : ℕ → Table ConditionalPayment → List ℕ
get_pending_expired now = keys_where (has_expired now)

-- The keys of the pending rows, which `evaluate_conditions` queries.
abbrev pub get_pending : Table ConditionalPayment → List ℕ
get_pending = keys_where (λ p. is_pending p.state)
