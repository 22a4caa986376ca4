-- ===== src/Conditional/Service.antt =====
-- The methods of `ConditionalPaymentService` (sthrip/services/conditional_payment_service.py).
use text.Mathlib.Text.{◌==◌ as str_eq}
use sthrip.Base.{
  ℕ, ◌+◌, String, Option, none, some, List, [], ◌∷◌, Bool, true, false, not, ◌||◌, ◌==◌, leb,
  if◌then◌else◌,
}
use sthrip.Base.Int.{ℤ, pos, negsuc, ltb_ℤ}
use sthrip.Base.Table.{find}
use sthrip.Base.Counts.{count_each}
use sthrip.Base.Action.{
  Action, pure, raise, attribute_error, gets, or_raise, raise_if, ◌>>=◌, ◌>>◌, value_error,
  lookup_error, permission_error,
}
use sthrip.Models.Payments.{
  ConditionalPayment, ConditionType, ConditionConfig, ParsedId, is_pending,
}
use sthrip.Models.Escrow.{EscrowDeal, EscrowStatus}
use sthrip.Models.Database.{Db, audit_log}
use sthrip.Ledger.Rows.{credit, deduct, get_available}
use sthrip.Escrow.Repo.{hours}
use sthrip.Conditional.Repo
use sthrip.Conditional.Repo.{Terms, get_by_id}

-- `_REQUIRED_CONFIG_FIELDS`
abbrev pub required_fields : ConditionType → List String
required_fields ConditionType.time_lock = "release_at" ∷ []
required_fields ConditionType.escrow_completed = "escrow_id" ∷ "required_status" ∷ []
required_fields ConditionType.balance_threshold = "agent_id" ∷ "threshold" ∷ []
required_fields ConditionType.webhook = "callback_url" ∷ []
required_fields ConditionType.other = []

unfoldable pub has_field : String → List String → Bool
has_field s [] = false
has_field s (f ∷ fs) = str_eq f s || has_field s fs

-- `_validate_condition_config` raises.
unfoldable pub lacks_field : List String → List String → Bool
lacks_field [] config = false
lacks_field (f ∷ required) config = not (has_field f config) || lacks_field required config

-- Not in `_VALID_CONDITION_TYPES`.
abbrev pub is_invalid : ConditionType → Bool
is_invalid ConditionType.other = true
is_invalid _ = false

-- `max(expires_hours, 0)`
abbrev pub natural : ℤ → ℕ
natural (pos n) = n
natural (negsuc _) = 0

unfoldable pub create_conditional : ℕ → ℕ → String → Terms → Action Db ConditionalPayment
unfolding deduct Repo.create
create_conditional now id hash r = do
  raise_if (r.from_agent_id == r.to_agent_id) value_error
  raise_if (is_invalid r.condition_type) value_error
  raise_if (lacks_field (required_fields r.condition_type) r.condition_config.fields) value_error
  deduct now r.from_agent_id r.amount r.currency
  payment ← Repo.create now id hash (now + hours (natural r.expires_hours)) r
  audit_log "conditional_payment.created" (some r.from_agent_id) (some id)
  pure payment

unfoldable pub execute_payment : ℕ → ℕ → Action Db ConditionalPayment
unfolding credit Repo.execute
execute_payment now id = do
  payment ← or_raise (← get_by_id id) lookup_error
  credit now payment.to_agent_id payment.locked_amount payment.currency
  executed ← Repo.execute now id
  raise_if (executed == 0) value_error
  audit_log "conditional_payment.executed" (some payment.from_agent_id) (some id)
  or_raise (← get_by_id id) lookup_error

unfoldable pub trigger_webhook : ℕ → ℕ → ℕ → Action Db ConditionalPayment
unfolding Repo.trigger execute_payment
trigger_webhook now id agent = do
  payment ← or_raise (← get_by_id id) lookup_error
  raise_if (not (payment.from_agent_id == agent)) permission_error
  raise_if (not (is_pending payment.state)) value_error
  triggered ← Repo.trigger now id
  raise_if (triggered == 0) value_error
  execute_payment now id

unfoldable pub cancel : ℕ → ℕ → ℕ → Action Db ConditionalPayment
unfolding credit Repo.cancel
cancel now agent id = do
  payment ← or_raise (← get_by_id id) lookup_error
  raise_if (not (payment.from_agent_id == agent)) permission_error
  raise_if (not (is_pending payment.state)) value_error
  credit now payment.from_agent_id payment.locked_amount payment.currency
  cancelled ← Repo.cancel id
  raise_if (cancelled == 0) value_error
  audit_log "conditional_payment.cancelled" (some agent) (some id)
  or_raise (← get_by_id id) lookup_error

-- `deal_status == required_status`
abbrev pub same_status : EscrowStatus → EscrowStatus → Bool
same_status EscrowStatus.created EscrowStatus.created = true
same_status EscrowStatus.accepted EscrowStatus.accepted = true
same_status EscrowStatus.delivered EscrowStatus.delivered = true
same_status EscrowStatus.completed EscrowStatus.completed = true
same_status EscrowStatus.cancelled EscrowStatus.cancelled = true
same_status EscrowStatus.expired EscrowStatus.expired = true
same_status EscrowStatus.partially_completed EscrowStatus.partially_completed = true
same_status _ _ = false

abbrev pub deal_has_status : Option EscrowStatus → Option EscrowDeal → Bool
deal_has_status (some status) (some deal) = same_status deal.status status
deal_has_status _ _ = false

abbrev pub is_reached : ℕ → Option ℕ → Bool
is_reached now none = false
is_reached now (some at) = leb at now

-- Whether the deal that `config` names has the status that it asks for.
abbrev pub escrow_met : ConditionConfig → Action Db Bool
escrow_met config = elim config.escrow_id [
  | ParsedId.known deal ↦
      gets (λ (db : Db). deal_has_status config.required_status (find deal db.deals))
  | ParsedId.malformed ↦ pure false
  | ParsedId.not_text ↦ raise attribute_error
]

abbrev pub below_threshold : ℕ → ℕ → ParsedId → Option ℤ → Action Db Bool
below_threshold now currency (ParsedId.known agent) (some threshold) =
    get_available now agent currency >>= λ balance. pure (ltb_ℤ balance threshold)
below_threshold now currency (ParsedId.known agent) none = pure false
below_threshold now currency ParsedId.malformed _ = pure false
below_threshold now currency ParsedId.not_text _ = raise attribute_error

-- The branches on `ctype`: whether the condition is met.
unfoldable pub condition_met : ℕ → ConditionalPayment → ConditionType → Action Db Bool
unfolding get_available
condition_met now p ConditionType.time_lock = pure (is_reached now p.condition_config.release_at)
condition_met now p ConditionType.escrow_completed = escrow_met p.condition_config
condition_met now p ConditionType.balance_threshold =
    below_threshold now p.currency p.condition_config.agent_id p.condition_config.threshold
condition_met now p ConditionType.webhook = pure false
condition_met now p ConditionType.other = pure false

-- The end of an iteration: PENDING to TRIGGERED to EXECUTED, if the condition is met.
abbrev pub execute_if : ℕ → ℕ → Bool → Action Db ℕ
execute_if now id met =
    if met
    then (do
      triggered ← Repo.trigger now id
      if triggered == 0 then pure 0 else (execute_payment now id >> pure 1))
    else pure 0

abbrev pub evaluate_found : ℕ → ℕ → Option ConditionalPayment → Action Db ℕ
evaluate_found now id none = pure 0
evaluate_found now id (some p) =
    condition_met now p p.condition_type >>= λ met. execute_if now id met

-- One iteration of `evaluate_conditions`: how many payments it executed.
unfoldable pub evaluate : ℕ → ℕ → Action Db ℕ
unfolding condition_met Repo.trigger execute_payment
evaluate now id = do payment ← get_by_id id; evaluate_found now id payment

unfoldable pub evaluate_conditions : ℕ → Action Db ℕ
unfolding evaluate count_each
evaluate_conditions now = do
  pending ← gets (λ (db : Db). Repo.get_pending db.conditionals)
  count_each (evaluate now) pending

-- One iteration of `expire_stale`.
abbrev pub refund_and_expire : ℕ → ℕ → Option ConditionalPayment → Action Db ℕ
refund_and_expire now id none = pure 0
refund_and_expire now id (some p) = do
  credit now p.from_agent_id p.locked_amount p.currency
  expired ← Repo.expire id
  if expired == 0
      then pure 0
      else (audit_log "conditional_payment.expired" (some p.from_agent_id) (some id) >> pure 1)

unfoldable pub expire_one : ℕ → ℕ → Action Db ℕ
unfolding credit Repo.expire
expire_one now id = do payment ← get_by_id id; refund_and_expire now id payment

unfoldable pub expire_stale : ℕ → Action Db ℕ
unfolding expire_one count_each
expire_stale now = do
  expired ← gets (λ (db : Db). Repo.get_pending_expired now db.conditionals)
  count_each (expire_one now) expired
