-- ===== src/Scenarios/Agreements.antt =====
-- Runs of the service for service level agreements.
use sthrip.Base.{ℕ, ◌≡◌, ◌⊎◌, none, some, List, [], ◌∷◌, false, refl, length}
use sthrip.Base.Int.{pos}
use sthrip.Base.Table.{find, set}
use sthrip.Base.Action.{ok, Raised, transact}
use sthrip.Base.Keys.{keys_where}
use sthrip.Base.Counts.{count_each}
use sthrip.Base.Machine.{Run}
use sthrip.Models.Agreements.{SlaContract, SlaStatus}
use sthrip.Models.Escrow.{EscrowDeal}
use sthrip.Models.Database.{Db}
use sthrip.Ledger.Rows.{find_row}
use sthrip.Ledger.Balance.{available_of}
use sthrip.Escrow.Deals.{cancel_escrow}
use sthrip.Sla.Repo.{Terms, new_contract, is_past_deadline, get_active_past_deadline}
use sthrip.Sla.Service.{
  create_contract, enforce_sla, accept_contract, deliver_contract, verify_contract,
}
use sthrip.Sla.Outcomes.{Step, SameButContracts}
use sthrip.Sla.Lifecycle.{Later, view, perform_later, perform_laters, perform_laters-Proceeds}
use sthrip.Sla.Creation.{Creatable, created_state, create_contract_outcome}
use sthrip.Sla.Unpaid.{price_can_be_taken_back}
use sthrip.Sla.Enforcement.{enforce_sla-NoneLate}
use sthrip.Scenarios.World.{world}

abbrev terms : Terms
terms = record {
  provider_id = 2;
  consumer_id = 1;
  template_id = none;
  service_description = "work";
  deliverables = "[]";
  response_time_secs = 60;
  delivery_time_secs = 900;
  price = pos 700;
  currency = 0;
  penalty_percent = 10;
}

abbrev contract : SlaContract
contract = new_contract 60 (some 31) terms

abbrev agreed : Db
agreed = created_state 60 31 91 "hash" terms world

-- The contract is accepted, delivered and verified, and the task runs.
abbrev course : List Later
course =
    Later.accept 70 91 2
    ∷ Later.deliver 80 91 2 "result"
    ∷ Later.verify 91 1
    ∷ Later.enforce 90
    ∷ []

create_contract_outcome_example :
    (Creatable 60 31 91 terms world
      × (create_contract 60 31 91 "hash" terms world ≡ (ok contract, agreed)))
    ⊎ ((¬ Creatable 60 31 91 terms world) × Raised (create_contract 60 31 91 "hash" terms world).0)
create_contract_outcome_example = create_contract_outcome 60 31 91 "hash" terms world

perform_laters-Proceeds_example :
    SameButContracts agreed (perform_laters course agreed)
    × Run Step (view agreed) (view (perform_laters course agreed))
perform_laters-Proceeds_example = perform_laters-Proceeds course agreed

is_completed : view (perform_laters course agreed) 91 ≡ some SlaStatus.completed
unfolding perform_laters perform_later transact find set keys_where count_each accept_contract
    deliver_contract verify_contract enforce_sla
is_completed = refl

is_created : create_contract 60 31 91 "hash" terms world ≡ (ok contract, agreed)
unfolding create_contract find find_row
is_created = refl

price_can_be_taken_back_example :
    (d : EscrowDeal) × (s' : Db) × (cancel_escrow 95 31 1 (perform_laters course agreed)
      ≡ (ok d, s'))
    × ((j u : ℕ) → available_of j u s' ≡ available_of j u world)
price_can_be_taken_back_example =
    price_can_be_taken_back 60 95 31 91 "hash" terms world contract agreed course is_created

abbrev started : Db
started = record world {
  contracts = (91, record contract { state = SlaStatus.active; started_at = some 70 }) ∷ [];
}

enforce_sla-NoneLate_example :
    ((enforce_sla 5000 started).0 ≡ ok (length (get_active_past_deadline 5000 started.contracts)))
    × SameButContracts started (enforce_sla 5000 started).1
    × ((id : ℕ) (c : SlaContract)
        → find id (enforce_sla 5000 started).1.contracts ≡ some c
        → is_past_deadline 5000 c ≡ false)
unfolding find
enforce_sla-NoneLate_example = enforce_sla-NoneLate 5000 started (refl, tt)
