-- ===== src/Ledger/Invariant.antt =====
-- Balances that are not negative (`ck_balance_available_non_negative` and its companion for
-- `pending` in sthrip/db/models.py), over the repository's methods.
use sthrip.Base.{ℕ, ◌≡◌, some, Option-cases, inl, inr, [], ◌∷◌, arith}
use sthrip.Base.Int.{pos, ◌≤ℤ◌, int_laws}
use sthrip.Models.Parties.{AgentBalance}
use sthrip.Models.Database.{Db, Balances}
use sthrip.Ledger.Method.{Method, call, AddsNothingNegative}
use sthrip.Ledger.Rows.{
  take_available, withdrawn_from, find_row, write_row, get_for_update, amend, credit, deduct,
  deposit, withdraw, add_pending, clear_pending_on_confirm, set_deposit_address,
}

abbrev pub IsSolventRow : AgentBalance → Type 0
IsSolventRow r = (pos 0 ≤ℤ r.available) × (pos 0 ≤ℤ r.pending)

abbrev pub IsSolvent : Balances → Type 0
IsSolvent [] = Unit
IsSolvent ((_, _, r) ∷ rows) = IsSolventRow r × IsSolvent rows

write_row-IsSolvent :
    (a t : ℕ) (r : AgentBalance) (rows : Balances)
    → IsSolvent rows
    → IsSolventRow r
    → IsSolvent (write_row a t r rows)
unfolding write_row
write_row-IsSolvent a t r [] h k = tt
write_row-IsSolvent a t r ((b, u, s) ∷ rows) h k = ground (arith, write_row-IsSolvent a t r rows)

find_row-IsSolvent :
    (a t : ℕ) (r : AgentBalance) (rows : Balances)
    → IsSolvent rows
    → find_row a t rows ≡ some r
    → IsSolventRow r
unfolding find_row
find_row-IsSolvent a t r [] h e = cc
find_row-IsSolvent a t r ((b, u, s) ∷ rows) h e = ground (arith, find_row-IsSolvent a t r rows)

pub get_for_update-IsSolvent :
    (now a t : ℕ) (rows : Balances)
    → IsSolvent rows
    → let (r, rows') = get_for_update now a t rows in IsSolventRow r × IsSolvent rows'
unfolding get_for_update
get_for_update-IsSolvent now a t rows h = elim (Option-cases (find_row a t rows)) [
  | inl e ↦ rw (e, get_for_update) ((omega arith, omega arith), ((omega arith, omega arith), h))
  | inr (r, e) ↦ rw (e, get_for_update) (find_row-IsSolvent a t r rows h e, h)
]

amend-IsSolvent :
    (now a t : ℕ) (f : AgentBalance → AgentBalance) (rows : Balances)
    → IsSolvent rows
    → IsSolventRow (f (get_for_update now a t rows).0)
    → IsSolvent (amend now a t f rows)
unfolding amend
amend-IsSolvent now a t f rows h k =
    let (r, rows') = get_for_update now a t rows in
    write_row-IsSolvent a t (f r) rows' (get_for_update-IsSolvent now a t rows h).1 k

-- Every method, called on balances of zero or more, leaves balances of zero or more, also where it
-- raises, if the methods that add are given amounts of zero or more.
pub call-IsSolvent :
    (now : ℕ) (m : Method) (db : Db)
    → AddsNothingNegative m
    → IsSolvent db.balances
    → IsSolvent (call now m db).1.balances
unfolding deposit credit deduct withdraw add_pending clear_pending_on_confirm set_deposit_address
call-IsSolvent now (Method.deposit a x t) db k h =
    let locked = get_for_update-IsSolvent now a t db.balances h in
    amend-IsSolvent now a t _ db.balances h (omega int_laws)
call-IsSolvent now (Method.deduct a x t) db k h =
    let locked = get_for_update-IsSolvent now a t db.balances h in
    grind (int_laws, amend-IsSolvent now a t (take_available now x) db.balances h)
call-IsSolvent now (Method.withdraw a x t) db k h =
    let locked = get_for_update-IsSolvent now a t db.balances h in
    grind (int_laws, amend-IsSolvent now a t (withdrawn_from now x) db.balances h)
call-IsSolvent now (Method.credit a x t) db k h =
    let locked = get_for_update-IsSolvent now a t db.balances h in
    amend-IsSolvent now a t _ db.balances h (omega int_laws)
call-IsSolvent now (Method.add_pending a x t) db k h =
    let locked = get_for_update-IsSolvent now a t db.balances h in
    amend-IsSolvent now a t _ db.balances h (omega int_laws)
call-IsSolvent now (Method.clear_pending_on_confirm a x t) db k h =
    let locked = get_for_update-IsSolvent now a t db.balances h in
    amend-IsSolvent now a t _ db.balances h (grind int_laws)
call-IsSolvent now (Method.set_deposit_address a address t) db k h =
    amend-IsSolvent now a t _ db.balances h (get_for_update-IsSolvent now a t db.balances h).0
