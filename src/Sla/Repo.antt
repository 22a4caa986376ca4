-- ===== src/Sla/Repo.antt =====
-- `SLATemplateRepository` and `SLAContractRepository` (sthrip/db/sla_repo.py).
use sthrip.Base.{
  ℕ, String, Option, none, some, List, ◌∷◌, Bool, true, false, ◌&&◌, ◌||◌, if◌then◌else◌, is_some,
}
use sthrip.Base.Int.{ℤ, pos, sub_ℕ, ltb_ℤ}
use sthrip.Base.Table.{Table, find, update_where}
use sthrip.Base.Keys.{keys_where}
use sthrip.Base.Action.{Action, ok, err, gets, integrity_error}
use sthrip.Models.Agreements.{
  SlaTemplate, SlaContract, SlaStatus, is_proposed, is_accepted, is_active_contract, is_delivered,
}
use sthrip.Models.Database.{Db}

-- The arguments of `SLATemplateRepository.create`.
pub record TemplateTerms : Type 0 where
  pub provider_id : ℕ
  pub name : String
  pub service_description : String
  pub deliverables : String
  pub response_time_secs : ℕ
  pub delivery_time_secs : ℕ
  pub base_price : ℤ
  pub currency : ℕ
  pub penalty_percent : ℕ

abbrev new_template : ℕ → TemplateTerms → SlaTemplate
new_template now r = record {
  provider_id = r.provider_id;
  name = r.name;
  service_description = r.service_description;
  deliverables = r.deliverables;
  response_time_secs = r.response_time_secs;
  delivery_time_secs = r.delivery_time_secs;
  base_price = r.base_price;
  currency = r.currency;
  penalty_percent = r.penalty_percent;
  is_active = true;
  created_at = now;
}

unfoldable pub create_template : ℕ → ℕ → TemplateTerms → Action Db SlaTemplate
create_template now id r db =
    let template = new_template now r in
    if is_some (find id db.templates)
    then (err integrity_error, db)
    else (ok template, record db { templates = (id, template) ∷ db.templates })

abbrev pub get_template_by_id : ℕ → Action Db (Option SlaTemplate)
get_template_by_id id = gets (λ db. find id db.templates)

unfoldable pub deactivate : ℕ → Action Db ℕ
deactivate id db =
    let off = λ (t : SlaTemplate). record t { is_active = false } in
    let (rows, templates) = update_where id (λ t. t.is_active) off db.templates in
    (ok rows, record db { templates = templates })

-- The arguments of `SLAContractRepository.create`.
pub record Terms : Type 0 where
  pub provider_id : ℕ
  pub consumer_id : ℕ
  pub template_id : Option ℕ
  pub service_description : String
  pub deliverables : String
  pub response_time_secs : ℕ
  pub delivery_time_secs : ℕ
  pub price : ℤ
  pub currency : ℕ
  pub penalty_percent : ℕ

abbrev pub new_contract : ℕ → Option ℕ → Terms → SlaContract
new_contract now deal r = record {
  provider_id = r.provider_id;
  consumer_id = r.consumer_id;
  template_id = r.template_id;
  service_description = r.service_description;
  deliverables = r.deliverables;
  response_time_secs = r.response_time_secs;
  delivery_time_secs = r.delivery_time_secs;
  price = r.price;
  currency = r.currency;
  penalty_percent = r.penalty_percent;
  state = SlaStatus.proposed;
  escrow_deal_id = deal;
  started_at = none;
  delivered_at = none;
  response_time_actual = none;
  delivery_time_actual = none;
  sla_met = none;
  result_hash = none;
  created_at = now;
}

unfoldable pub create : ℕ → ℕ → Option ℕ → Terms → Action Db SlaContract
create now id deal r db =
    let contract = new_contract now deal r in
    if is_some (find id db.contracts)
    then (err integrity_error, db)
    else (ok contract, record db { contracts = (id, contract) ∷ db.contracts })

-- `get_by_id`, and `get_by_id_for_update`, which locks the row too.
abbrev pub get_by_id : ℕ → Action Db (Option SlaContract)
get_by_id id = gets (λ db. find id db.contracts)

abbrev pub update_contract : ℕ → (SlaContract → Bool) → (SlaContract → SlaContract) → Action Db ℕ
update_contract id p f db =
    let (rows, contracts) = update_where id p f db.contracts in
    (ok rows, record db { contracts = contracts })

abbrev pub accepted_contract : SlaContract → SlaContract
accepted_contract c = record c { state = SlaStatus.accepted }

unfoldable pub accept : ℕ → Action Db ℕ
accept id = update_contract id (λ c. is_proposed c.state) accepted_contract

abbrev pub activated_contract : ℕ → SlaContract → SlaContract
activated_contract now c = record c { state = SlaStatus.active; started_at = some now }

unfoldable pub activate : ℕ → ℕ → Action Db ℕ
activate now id = update_contract id (λ c. is_accepted c.state) (activated_contract now)

-- `int((now - started).total_seconds())`
abbrev pub elapsed : ℕ → ℕ → ℤ
elapsed now started = sub_ℕ now started

abbrev pub time_actual : ℕ → Option ℕ → Option ℤ
time_actual now none = none
time_actual now (some started) = some (elapsed now started)

abbrev pub delivered_contract : ℕ → String → SlaContract → SlaContract
delivered_contract now hash c = record c {
  state = SlaStatus.delivered;
  delivered_at = some now;
  result_hash = some hash;
  delivery_time_actual = time_actual now c.started_at;
}

-- The test before the UPDATE is the UPDATE's own.
unfoldable pub deliver : ℕ → ℕ → String → Action Db ℕ
deliver now id hash =
    update_contract id (λ c. is_active_contract c.state) (delivered_contract now hash)

abbrev pub completed_contract : Bool → SlaContract → SlaContract
completed_contract met c = record c { state = SlaStatus.completed; sla_met = some met }

unfoldable pub complete : ℕ → Bool → Action Db ℕ
complete id met = update_contract id (λ c. is_delivered c.state) (completed_contract met)

abbrev pub breached_contract : SlaContract → SlaContract
breached_contract c = record c { state = SlaStatus.breached; sla_met = some false }

unfoldable pub breach : ℕ → Action Db ℕ
breach id = update_contract id (λ c. is_active_contract c.state) breached_contract

abbrev pub disputed_contract : SlaContract → SlaContract
disputed_contract c = record c { state = SlaStatus.disputed }

unfoldable pub dispute : ℕ → Action Db ℕ
dispute id =
    update_contract id (λ c. is_active_contract c.state || is_delivered c.state) disputed_contract

-- `elapsed > c.delivery_time_secs or elapsed > c.response_time_secs`
abbrev pub is_late : ℕ → Option ℕ → SlaContract → Bool
is_late now none c = false
is_late now (some started) c =
    ltb_ℤ (pos c.delivery_time_secs) (elapsed now started)
    || ltb_ℤ (pos c.response_time_secs) (elapsed now started)

abbrev pub is_past_deadline : ℕ → SlaContract → Bool
is_past_deadline now c = is_active_contract c.state && is_late now c.started_at c

-- The keys of the contracts that the method returns.
abbrev pub get_active_past_deadline : ℕ → Table SlaContract → List ℕ
get_active_past_deadline now = keys_where (is_past_deadline now)
