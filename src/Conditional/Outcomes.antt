-- ===== src/Conditional/Outcomes.antt =====
-- How each call on a conditional payment ends.
use sthrip.Base.{ℕ, ◌≡◌, ◌≢◌, ◌⊎◌, ◌+◌, String, none, some, ◌∷◌, arith, true, false}
use sthrip.Base.Int.{◌≤ℤ◌}
use sthrip.Base.Table.{find, set, find-set_self, set-set}
use sthrip.Base.Action.{ok, Raised}
use sthrip.Models.Parties.{audit}
use sthrip.Models.Payments.{ConditionalPayment, ConditionalPaymentState}
use sthrip.Models.Database.{Db}
use sthrip.Ledger.Rows.{amend, add_available, take_available, get_for_update, find_row}
use sthrip.Ledger.Balance.{available_of}
use sthrip.Escrow.Repo.{hours}
use sthrip.Conditional.Repo.{
  Terms, new_payment, triggered_payment, executed_payment, cancelled_payment, expired_payment,
  has_expired,
}
use sthrip.Conditional.Service.{
  create_conditional, execute_payment, trigger_webhook, cancel, is_invalid, lacks_field,
  required_fields, natural, expire_one,
}

-- What creating a conditional payment asks of the request and the database.
abbrev pub Creatable : ℕ → Terms → Db → Type 0
Creatable id r db =
    (r.from_agent_id ≢ r.to_agent_id)
    × (is_invalid r.condition_type ≡ false)
    × (lacks_field (required_fields r.condition_type) r.condition_config.fields ≡ false)
    × (r.amount ≤ℤ available_of r.from_agent_id r.currency db)
    × (find id db.conditionals ≡ none)

abbrev pub created_payment : ℕ → String → Terms → ConditionalPayment
created_payment now hash r = new_payment now hash (now + hours (natural r.expires_hours)) r

abbrev pub created_state : ℕ → ℕ → String → Terms → Db → Db
created_state now id hash r db = record db {
  balances = amend now r.from_agent_id r.currency (take_available now r.amount) db.balances;
  conditionals = (id, created_payment now hash r) ∷ db.conditionals;
  journal = audit "conditional_payment.created" (some r.from_agent_id) (some id) ∷ db.journal;
}

-- Either all of `Creatable` holds, and the call returns the new payment in `created_state`, where
-- the amount is taken from the sender, or it does not, and the call raises.
pub create_conditional_outcome :
    (now id : ℕ) (hash : String) (r : Terms) (db : Db)
    → (Creatable id r db
        × (create_conditional now id hash r db
            ≡ (ok (created_payment now hash r), created_state now id hash r db)))
      ⊎ ((¬ Creatable id r db) × Raised (create_conditional now id hash r db).0)
unfolding create_conditional available_of get_for_update find_row
create_conditional_outcome now id hash r db = ground arith

-- The payment after it was triggered and paid out.
abbrev pub paid_payment : ℕ → ConditionalPayment → ConditionalPayment
paid_payment now p = executed_payment now (triggered_payment now p)

abbrev pub executed_state : ℕ → ℕ → ConditionalPayment → Db → Db
executed_state now id p db = record db {
  balances = amend now p.to_agent_id p.currency (add_available now p.locked_amount) db.balances;
  conditionals = set id (paid_payment now p) db.conditionals;
  journal = audit "conditional_payment.executed" (some p.from_agent_id) (some id) ∷ db.journal;
}

-- Paying out a payment that has just been triggered.
pub execute-triggered :
    (now id : ℕ) (p : ConditionalPayment) (db : Db)
    → find id db.conditionals ≡ some p
    → execute_payment now id
        (record db { conditionals = set id (triggered_payment now p) db.conditionals })
      ≡ (ok (paid_payment now p), executed_state now id p db)
unfolding execute_payment
execute-triggered now id p db e =
    let t = triggered_payment now p in
    let stored = find-set_self id t p db.conditionals e in
    ground (
      arith,
      stored,
      find-set_self id (paid_payment now p) t (set id t db.conditionals) stored,
      set-set id (paid_payment now p) t db.conditionals,
    )

-- The sender's own payment, which nothing has happened to.
abbrev pub IsOpenFor : ℕ → ConditionalPayment → Type 0
IsOpenFor agent p = (p.from_agent_id ≡ agent) × (p.state ≡ ConditionalPaymentState.pending)

-- For a payment that is there, either it is the sender's own and pending, and the call pays the
-- recipient in `executed_state`, or it is not, and the call raises with the session as it was.
pub trigger_webhook_outcome :
    (now id agent : ℕ) (p : ConditionalPayment) (db : Db)
    → find id db.conditionals ≡ some p
    → (IsOpenFor agent p
        × (trigger_webhook now id agent db ≡ (ok (paid_payment now p), executed_state now id p db)))
      ⊎ ((¬ IsOpenFor agent p)
          × Raised (trigger_webhook now id agent db).0
          × ((trigger_webhook now id agent db).1 ≡ db))
unfolding trigger_webhook
trigger_webhook_outcome now id agent p db e = ground (arith, execute-triggered now id p db e)

abbrev pub cancelled_state : ℕ → ℕ → ConditionalPayment → Db → Db
cancelled_state now id p db = record db {
  balances = amend now p.from_agent_id p.currency (add_available now p.locked_amount) db.balances;
  conditionals = set id (cancelled_payment p) db.conditionals;
  journal = audit "conditional_payment.cancelled" (some p.from_agent_id) (some id) ∷ db.journal;
}

-- For a payment that is there, either it is the sender's own and pending, and the call gives the
-- amount back in `cancelled_state`, or it is not, and the call raises with the session as it was.
pub cancel_outcome :
    (now agent id : ℕ) (p : ConditionalPayment) (db : Db)
    → find id db.conditionals ≡ some p
    → (IsOpenFor agent p
        × (cancel now agent id db ≡ (ok (cancelled_payment p), cancelled_state now id p db)))
      ⊎ ((¬ IsOpenFor agent p)
          × Raised (cancel now agent id db).0
          × ((cancel now agent id db).1 ≡ db))
unfolding cancel
cancel_outcome now agent id p db e =
    ground (arith, find-set_self id (cancelled_payment p) p db.conditionals e)

abbrev pub expired_state : ℕ → ℕ → ConditionalPayment → Db → Db
expired_state now id p db = record db {
  balances = amend now p.from_agent_id p.currency (add_available now p.locked_amount) db.balances;
  conditionals = set id (expired_payment p) db.conditionals;
  journal = audit "conditional_payment.expired" (some p.from_agent_id) (some id) ∷ db.journal;
}

-- A stale payment is given back.
pub expire_one-stale :
    (now id : ℕ) (p : ConditionalPayment) (db : Db)
    → find id db.conditionals ≡ some p
    → has_expired now p ≡ true
    → expire_one now id db ≡ (ok 1, expired_state now id p db)
unfolding expire_one
expire_one-stale now id p db e due = ground arith
