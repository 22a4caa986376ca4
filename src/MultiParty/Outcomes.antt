-- ===== src/MultiParty/Outcomes.antt =====
-- How creating and expiring a group payment end.
use sthrip.Base.{ℕ, ◌≡◌, ◌⊎◌, ◌+◌, String, none, some, ◌∷◌, arith, true, false}
use sthrip.Base.Int.{◌≤ℤ◌}
use sthrip.Base.Table.{find, set}
use sthrip.Base.Action.{ok, Raised}
use sthrip.Models.Parties.{audit}
use sthrip.Models.Payments.{MultiPartyPayment, MultiPartyPaymentState}
use sthrip.Models.Database.{Db}
use sthrip.Ledger.Rows.{amend, take_available, get_for_update, find_row}
use sthrip.Ledger.Balance.{available_of}
use sthrip.Escrow.Repo.{hours}
use sthrip.MultiParty.Repo.{Request, ended_payment, has_duplicates, new_payment, has_expired}
use sthrip.MultiParty.Service.{
  is_empty, has_nonpositive, resolve, total_of, events, create_multi_party, refunded, expire_one,
}

-- What creating a group payment asks of the request and the database.
abbrev pub Creatable : ℕ → Request → Db → Type 0
Creatable id r db =
    (is_empty r.shares ≡ false)
    × (has_duplicates r.shares ≡ false)
    × (has_nonpositive r.shares ≡ false)
    × (resolve db.agents r.shares ≡ ok tt)
    × (find r.sender_id r.shares ≡ none)
    × (total_of r.shares ≤ℤ available_of r.sender_id r.currency db)
    × (find id db.group_payments ≡ none)

abbrev pub created_payment : ℕ → String → Request → MultiPartyPayment
created_payment now hash r = new_payment now hash (total_of r.shares) (now + hours r.accept_hours) r

abbrev pub created_state : ℕ → ℕ → String → Request → Db → Db
created_state now id hash r db = record db {
  balances = amend now r.sender_id r.currency (take_available now (total_of r.shares)) db.balances;
  group_payments = (id, created_payment now hash r) ∷ db.group_payments;
  journal = events r.shares (audit "multi_party.created" (some r.sender_id) (some id) ∷ db.journal);
}

-- Either all of `Creatable` holds, and the call returns the new payment in `created_state`, where
-- the sum of the shares is taken from the sender, or it does not, and the call raises.
pub create_multi_party_outcome :
    (now id : ℕ) (hash : String) (r : Request) (db : Db)
    → (Creatable id r db
        × (create_multi_party now id hash r db
            ≡ (ok (created_payment now hash r), created_state now id hash r db)))
      ⊎ ((¬ Creatable id r db) × Raised (create_multi_party now id hash r db).0)
unfolding create_multi_party available_of get_for_update find_row
create_multi_party_outcome now id hash r db = ground arith

abbrev pub expired_state : ℕ → ℕ → MultiPartyPayment → Db → Db
expired_state now id p db = record db {
  balances = refunded now p db.balances;
  group_payments = set id (ended_payment MultiPartyPaymentState.expired now p) db.group_payments;
  journal = audit "multi_party.expired" (some p.sender_id) (some id) ∷ db.journal;
}

-- An expired payment is refunded.
pub expire_one-stale :
    (now id : ℕ) (p : MultiPartyPayment) (db : Db)
    → find id db.group_payments ≡ some p
    → has_expired now p ≡ true
    → expire_one now id db ≡ (ok 1, expired_state now id p db)
unfolding expire_one
expire_one-stale now id p db e due = ground arith
