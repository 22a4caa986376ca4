-- ===== src/Sla/Creation.antt =====
-- How a contract is created, with the deal that holds its price.
use sthrip.Base.{ℕ, ◌≡◌, ◌⊎◌, String, none, some, ◌∷◌, arith}
use sthrip.Base.Int.{◌≤ℤ◌}
use sthrip.Base.Table.{find}
use sthrip.Base.Action.{ok, Raised}
use sthrip.Models.Parties.{audit, webhook}
use sthrip.Models.Database.{Db}
use sthrip.Ledger.Rows.{get_for_update, get_available}
use sthrip.Ledger.Balance.{available_of}
use sthrip.Escrow.Creation
use sthrip.Escrow.Creation.{create_escrow_outcome}
use sthrip.Sla.Repo.{Terms, new_contract}
use sthrip.Sla.Service.{create_contract, escrow_request}

-- The session in which the consumer's balance row is locked.
abbrev pub locked : ℕ → Terms → Db → Db
locked now r db = record db {
  balances = (get_for_update now r.consumer_id r.currency db.balances).1;
}

-- What creating a contract asks: the price in the contract's currency, and what the deal asks, which
-- has the price in XMR.
abbrev pub Creatable : ℕ → ℕ → ℕ → Terms → Db → Type 0
Creatable now deal id r db =
    (r.price ≤ℤ available_of r.consumer_id r.currency db)
    × Creation.Creatable deal (escrow_request r) (locked now r db)
    × (find id db.contracts ≡ none)

abbrev pub created_state : ℕ → ℕ → ℕ → String → Terms → Db → Db
created_state now deal id hash r db =
    let s = Creation.created_state now deal hash (escrow_request r) (locked now r db) in
    record s {
      contracts = (id, new_contract now (some deal) r) ∷ db.contracts;
      journal =
          webhook r.provider_id "sla.contract.created"
          ∷ webhook r.consumer_id "sla.contract.created"
          ∷ audit "sla.contract.created" (some r.consumer_id) (some id)
          ∷ s.journal;
    }

-- Either all of `Creatable` holds, and the call returns the proposed contract in `created_state`,
-- where its price is in a new deal between the two, or it does not, and the call raises.
pub create_contract_outcome :
    (now deal id : ℕ) (hash : String) (r : Terms) (db : Db)
    → (Creatable now deal id r db
        × (create_contract now deal id hash r db
            ≡ (ok (new_contract now (some deal) r), created_state now deal id hash r db)))
      ⊎ ((¬ Creatable now deal id r db) × Raised (create_contract now deal id hash r db).0)
unfolding create_contract get_available available_of get_for_update
create_contract_outcome now deal id hash r db =
    ground (arith, create_escrow_outcome now deal hash (escrow_request r) (locked now r db))
