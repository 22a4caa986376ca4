-- ===== src/Ledger/Rows.antt =====
-- The rows of `agent_balances` and the methods of `BalanceRepository`.
use sthrip.Base.{ℕ, String, Option, none, some, [], ◌∷◌, ◌==◌, ◌&&◌, if◌then◌else◌}
use sthrip.Base.Int.{ℤ, pos, ◌+ℤ◌, ◌-ℤ◌, ltb_ℤ}
use sthrip.Base.Action.{Action, ok, err, value_error}
use sthrip.Models.Parties.{AgentBalance}
use sthrip.Models.Database.{Db, Balances}

-- `AgentBalance(agent_id=…, token=…)`
abbrev pub new_balance : ℕ → AgentBalance
new_balance now = record {
  available = pos 0;
  pending = pos 0;
  total_deposited = pos 0;
  total_withdrawn = pos 0;
  deposit_address = none;
  updated_at = now;
}

unfoldable pub find_row : ℕ → ℕ → Balances → Option AgentBalance
find_row a t [] = none
find_row a t ((b, u, r) ∷ rows) = if b == a && u == t then some r else find_row a t rows

unfoldable pub write_row : ℕ → ℕ → AgentBalance → Balances → Balances
write_row a t r [] = []
write_row a t r ((b, u, s) ∷ rows) =
    if b == a && u == t then (b, u, r) ∷ rows else (b, u, s) ∷ write_row a t r rows

-- `_get_for_update` (and `get_or_create`): the row, and the table that has it.
unfoldable pub get_for_update : ℕ → ℕ → ℕ → Balances → AgentBalance × Balances
get_for_update now a t rows = elim (find_row a t rows) [
  | none ↦ (new_balance now, (a, t, new_balance now) ∷ rows)
  | some r ↦ (r, rows)
]

-- Locks the row and writes `f` of it.
unfoldable pub amend : ℕ → ℕ → ℕ → (AgentBalance → AgentBalance) → Balances → Balances
unfolding get_for_update
amend now a t f rows = let (r, rows') = get_for_update now a t rows in write_row a t (f r) rows'

abbrev pub add_available : ℕ → ℤ → AgentBalance → AgentBalance
add_available now x r = record r { available = r.available +ℤ x; updated_at = now }

abbrev pub take_available : ℕ → ℤ → AgentBalance → AgentBalance
take_available now x r = record r { available = r.available -ℤ x; updated_at = now }

abbrev pub withdrawn_from : ℕ → ℤ → AgentBalance → AgentBalance
withdrawn_from now x r = record r {
  available = r.available -ℤ x;
  total_withdrawn = r.total_withdrawn +ℤ x;
  updated_at = now;
}

unfoldable pub get_available : ℕ → ℕ → ℕ → Action Db ℤ
unfolding get_for_update
get_available now a t db =
    let (r, rows) = get_for_update now a t db.balances in
    (ok r.available, record db { balances = rows })

unfoldable pub deposit : ℕ → ℕ → ℤ → ℕ → Action Db (Unit {0})
deposit now a x t db =
    let f = λ (r : AgentBalance). record r {
      available = r.available +ℤ x;
      total_deposited = r.total_deposited +ℤ x;
      updated_at = now;
    } in
    (ok tt, record db { balances = amend now a t f db.balances })

unfoldable pub credit : ℕ → ℕ → ℤ → ℕ → Action Db (Unit {0})
credit now a x t db =
    (ok tt, record db { balances = amend now a t (add_available now x) db.balances })

-- `if x > Decimal("0"): bal.credit(…)`
unfoldable pub paid : ℕ → ℕ → ℤ → ℕ → Balances → Balances
paid now a x t rows = if ltb_ℤ (pos 0) x then amend now a t (add_available now x) rows else rows

unfoldable pub credit_positive : ℕ → ℕ → ℤ → ℕ → Action Db (Unit {0})
credit_positive now a x t db = (ok tt, record db { balances = paid now a x t db.balances })

unfoldable pub deduct : ℕ → ℕ → ℤ → ℕ → Action Db (Unit {0})
unfolding get_for_update
deduct now a x t db =
    let (r, rows) = get_for_update now a t db.balances in
    if ltb_ℤ r.available x
    then (err value_error, record db { balances = rows })
    else (ok tt, record db { balances = amend now a t (take_available now x) db.balances })

unfoldable pub withdraw : ℕ → ℕ → ℤ → ℕ → Action Db (Unit {0})
unfolding get_for_update
withdraw now a x t db =
    let (r, rows) = get_for_update now a t db.balances in
    if ltb_ℤ r.available x
    then (err value_error, record db { balances = rows })
    else (ok tt, record db { balances = amend now a t (withdrawn_from now x) db.balances })

unfoldable pub add_pending : ℕ → ℕ → ℤ → ℕ → Action Db (Unit {0})
add_pending now a x t db =
    let f = λ (r : AgentBalance). record r { pending = r.pending +ℤ x; updated_at = now } in
    (ok tt, record db { balances = amend now a t f db.balances })

-- `max(x, Decimal("0"))`
abbrev pub at_least_zero : ℤ → ℤ
at_least_zero x = if ltb_ℤ x (pos 0) then pos 0 else x

abbrev pub cleared : ℕ → ℤ → AgentBalance → AgentBalance
cleared now x r = record r { pending = at_least_zero (r.pending -ℤ x); updated_at = now }

unfoldable pub clear_pending_on_confirm : ℕ → ℕ → ℤ → ℕ → Action Db (Unit {0})
clear_pending_on_confirm now a x t db =
    (ok tt, record db { balances = amend now a t (cleared now x) db.balances })

unfoldable pub set_deposit_address : ℕ → ℕ → String → ℕ → Action Db (Unit {0})
set_deposit_address now a address t db =
    let f = λ (r : AgentBalance). record r { deposit_address = some address } in
    (ok tt, record db { balances = amend now a t f db.balances })
