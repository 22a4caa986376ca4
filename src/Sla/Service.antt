-- ===== src/Sla/Service.antt =====
-- The methods of `SLAService` (sthrip/services/sla_service.py).
use sthrip.Base.{ℕ, String, Option, none, some, Bool, true, not, ◌&&◌, ◌==◌, if◌then◌else◌}
use sthrip.Base.Int.{ℤ, pos, ltb_ℤ, leb_ℤ}
use sthrip.Base.Table.{find}
use sthrip.Base.Counts.{count_each}
use sthrip.Base.Action.{
  Action, pure, gets, or_raise, raise_if, ◌>>=◌, ◌>>◌, value_error, lookup_error, permission_error,
  runtime_error,
}
use sthrip.Models.Agreements.{SlaTemplate, SlaContract}
use sthrip.Models.Database.{Db, audit_log, queue_webhook}
use sthrip.Ledger.Rows.{get_available}
use sthrip.Escrow.Deals.{Request, create_escrow}
use sthrip.Sla.Repo
use sthrip.Sla.Repo.{TemplateTerms, Terms, get_by_id, get_template_by_id}

unfoldable pub create_template : ℕ → ℕ → TemplateTerms → Action Db SlaTemplate
unfolding Repo.create_template
create_template now id r = Repo.create_template now id r

unfoldable pub get_template : ℕ → Action Db SlaTemplate
get_template id = do or_raise (← get_template_by_id id) lookup_error

-- What `create_contract` gives to `create_escrow`: neither the currency nor milestones.
abbrev pub escrow_request : Terms → Request
escrow_request r = record {
  buyer_id = r.consumer_id;
  seller_id = r.provider_id;
  amount = r.price;
  description = r.service_description;
  accept_timeout_hours = 24;
  delivery_timeout_hours = 48;
  review_timeout_hours = 24;
  milestones = none;
}

-- An event for both sides.
abbrev pub notify : String → ℕ → ℕ → Action Db (Unit {0})
notify event first second = do queue_webhook first event; queue_webhook second event

-- `deal` and `id` are the keys of the new deal and of the new contract.
unfoldable pub create_contract : ℕ → ℕ → ℕ → String → Terms → Action Db SlaContract
unfolding get_available create_escrow Repo.create
create_contract now deal id hash r = do
  raise_if (r.consumer_id == r.provider_id) value_error
  available ← get_available now r.consumer_id r.currency
  raise_if (ltb_ℤ available r.price) value_error
  create_escrow now deal hash (escrow_request r)
  contract ← Repo.create now id (some deal) r
  audit_log "sla.contract.created" (some r.consumer_id) (some id)
  notify "sla.contract.created" r.consumer_id r.provider_id
  pure contract

-- The contract after a change; `None.id` would be an AttributeError.
abbrev pub refetch : ℕ → Action Db SlaContract
refetch id db = or_raise (find id db.contracts) runtime_error db

unfoldable pub accept_contract : ℕ → ℕ → ℕ → Action Db SlaContract
unfolding Repo.accept Repo.activate
accept_contract now id provider = do
  contract ← or_raise (← get_by_id id) lookup_error
  raise_if (not (contract.provider_id == provider)) permission_error
  Repo.accept id
  Repo.activate now id
  fresh ← refetch id
  audit_log "sla.contract.accepted" (some provider) (some id)
  notify "sla.contract.accepted" provider fresh.consumer_id
  pure fresh

unfoldable pub deliver_contract : ℕ → ℕ → ℕ → String → Action Db SlaContract
unfolding Repo.deliver
deliver_contract now id provider hash = do
  contract ← or_raise (← get_by_id id) lookup_error
  raise_if (not (contract.provider_id == provider)) permission_error
  rows ← Repo.deliver now id hash
  raise_if (rows == 0) value_error
  fresh ← refetch id
  audit_log "sla.contract.delivered" (some provider) (some id)
  notify "sla.contract.delivered" provider fresh.consumer_id
  pure fresh

-- Without a time the agreement counts as met.
abbrev pub was_met : Option ℤ → ℕ → Bool
was_met none limit = true
was_met (some actual) limit = leb_ℤ actual (pos limit)

unfoldable pub verify_contract : ℕ → ℕ → Action Db SlaContract
unfolding Repo.complete
verify_contract id consumer = do
  contract ← or_raise (← get_by_id id) lookup_error
  raise_if (not (contract.consumer_id == consumer)) permission_error
  rows ← Repo.complete id (was_met contract.delivery_time_actual contract.delivery_time_secs)
  raise_if (rows == 0) value_error
  fresh ← refetch id
  audit_log "sla.contract.completed" (some consumer) (some id)
  notify "sla.contract.completed" consumer fresh.provider_id
  pure fresh

abbrev pub is_stranger : ℕ → SlaContract → Bool
is_stranger agent c = not (c.provider_id == agent) && not (c.consumer_id == agent)

unfoldable pub get_contract : ℕ → ℕ → Action Db SlaContract
get_contract id agent = do
  contract ← or_raise (← get_by_id id) lookup_error
  raise_if (is_stranger agent contract) permission_error
  pure contract

unfoldable pub dispute_contract : ℕ → ℕ → Action Db SlaContract
unfolding Repo.dispute
dispute_contract id agent = do
  contract ← or_raise (← get_by_id id) lookup_error
  raise_if (is_stranger agent contract) permission_error
  rows ← Repo.dispute id
  raise_if (rows == 0) value_error
  fresh ← refetch id
  audit_log "sla.contract.disputed" (some agent) (some id)
  notify "sla.contract.disputed" fresh.provider_id fresh.consumer_id
  pure fresh

-- The round of `enforce_sla` on a contract that the query has found.
abbrev pub enforce_found : ℕ → Option SlaContract → Action Db ℕ
enforce_found id none = pure 0
enforce_found id (some contract) = do
  rows ← Repo.breach id
  if rows == 0 then pure 0 else (do
    audit_log "sla.contract.breached" (some contract.provider_id) (some id)
    notify "sla.contract.breached" contract.consumer_id contract.provider_id
    pure 1)

unfoldable pub enforce_one : ℕ → Action Db ℕ
unfolding Repo.breach
enforce_one id = do contract ← get_by_id id; enforce_found id contract

unfoldable pub enforce_sla : ℕ → Action Db ℕ
unfolding enforce_one count_each
enforce_sla now = do
  overdue ← gets (λ (db : Db). Repo.get_active_past_deadline now db.contracts)
  count_each enforce_one overdue
