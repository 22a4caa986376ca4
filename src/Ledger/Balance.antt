-- ===== src/Ledger/Balance.antt =====
-- What each method does to the balance of every agent in every token.
use sthrip.Base.{ℕ, ◌≡◌, ◌⊎◌, none, some, Option, [], ◌∷◌, ◌==◌, ◌&&◌, if◌then◌else◌, arith}
use sthrip.Base.Int.{ℤ, pos, ◌+ℤ◌, ◌-ℤ◌, ◌<ℤ◌, ◌≤ℤ◌}
use sthrip.Base.Action.{ok, err, value_error}
use sthrip.Models.Parties.{AgentBalance}
use sthrip.Models.Database.{Db, Balances}
use sthrip.Ledger.Rows.{
  cleared, find_row, write_row, get_for_update, amend, add_available, take_available, credit,
  deduct, clear_pending_on_confirm, at_least_zero,
}

find_row-write_row :
    (j u a t : ℕ) (r : AgentBalance) (rows : Balances)
    → find_row j u (write_row a t r rows) ≡ (
        if a == j && t == u
        then elim (find_row a t rows) [ none ↦ none | some _ ↦ some r ]
        else find_row j u rows)
unfolding find_row write_row
find_row-write_row j u a t r [] = ground arith
find_row-write_row j u a t r ((b, v, w) ∷ rows) = ground (arith, find_row-write_row j u a t r rows)

-- Locking a row leaves the others, and writing it back is seen by whoever reads it.
pub find_row-amend :
    (j u now a t : ℕ) (f : AgentBalance → AgentBalance) (rows : Balances)
    → find_row j u (amend now a t f rows)
      ≡ (if a == j && t == u then some (f (get_for_update now a t rows).0) else find_row j u rows)
unfolding amend get_for_update find_row
find_row-amend j u now a t f rows =
    let (r, rows') = get_for_update now a t rows in
    ground (arith, find_row-write_row j u a t (f r) rows')

-- The available amount that an agent has; no row counts as nothing.
abbrev pub amount_in : Option AgentBalance → ℤ
amount_in none = pos 0
amount_in (some r) = r.available

unfoldable pub available_of : ℕ → ℕ → Db → ℤ
available_of a t db = amount_in (find_row a t db.balances)

-- A credit raises the balance of its agent in its token, and no other.
pub credit-available_of :
    (now a t : ℕ) (x : ℤ) (db : Db) (j u : ℕ)
    → available_of j u (credit now a x t db).1
      ≡ (if a == j && t == u then available_of a t db +ℤ x else available_of j u db)
unfolding credit available_of get_for_update
credit-available_of now a t x db j u =
    ground (arith, find_row-amend j u now a t (add_available now x) db.balances)

-- A deduction of no more than the balance lowers that balance, and no other; a larger one raises
-- and changes no balance.
pub deduct-available_of :
    (now a t : ℕ) (x : ℤ) (db : Db) (j u : ℕ)
    → let (r, db') = deduct now a x t db in
      (available_of a t db <ℤ x
        × (r ≡ err value_error)
        × (available_of j u db' ≡ available_of j u db))
      ⊎ (x ≤ℤ available_of a t db
          × (r ≡ ok tt)
          × (available_of j u db'
              ≡ (if a == j && t == u then available_of a t db -ℤ x else available_of j u db)))
unfolding deduct available_of get_for_update find_row
deduct-available_of now a t x db j u =
    ground (arith, find_row-amend j u now a t (take_available now x) db.balances)

abbrev pub pending_in : Option AgentBalance → ℤ
pending_in none = pos 0
pending_in (some r) = r.pending

unfoldable pub pending_of : ℕ → ℕ → Db → ℤ
pending_of a t db = pending_in (find_row a t db.balances)

-- Confirming a deposit takes the amount from what is pending, down to zero, and raises nobody's
-- available amount.
pub clear_pending_on_confirm-pending_of :
    (now a t : ℕ) (x : ℤ) (db : Db) (j u : ℕ)
    → let db' = (clear_pending_on_confirm now a x t db).1 in
      (pending_of j u db'
        ≡ (if a == j && t == u then at_least_zero (pending_of a t db -ℤ x) else pending_of j u db))
      × (available_of j u db' ≡ available_of j u db)
unfolding clear_pending_on_confirm available_of pending_of get_for_update find_row
clear_pending_on_confirm-pending_of now a t x db j u =
    ground (arith, find_row-amend j u now a t (cleared now x) db.balances)
