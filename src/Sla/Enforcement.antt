-- ===== src/Sla/Enforcement.antt =====
-- The task that ends contracts past their deadlines.
use sthrip.Base.{ℕ, ◌≡◌, length, some, arith, refl, true, false}
use sthrip.Base.Table.{find, set}
use sthrip.Base.Keys.{Distinct}
use sthrip.Base.Counts.{Processes, count_each-Processes}
use sthrip.Base.Action.{ok}
use sthrip.Models.Agreements.{SlaContract, is_active_contract}
use sthrip.Models.Database.{Db}
use sthrip.Sla.Repo.{get_active_past_deadline, breached_contract, is_past_deadline}
use sthrip.Sla.Service.{enforce_one, enforce_sla}
use sthrip.Sla.Outcomes.{SameButContracts, enforce_one-same, then-same}

is_active :
    (now : ℕ) (c : SlaContract) → is_past_deadline now c ≡ true → is_active_contract c.state ≡ true
is_active now c due = ground arith

-- A contract that is past its deadline is breached.
enforce_one-late :
    (now id : ℕ) (c : SlaContract) (db : Db)
    → find id db.contracts ≡ some c
    → is_past_deadline now c ≡ true
    → (enforce_one id db).1.contracts ≡ set id (breached_contract c) db.contracts
unfolding enforce_one
enforce_one-late now id c db e due = let active = is_active now c due in ground arith

-- It counts one.
enforce_one-counted :
    (now id : ℕ) (c : SlaContract) (db : Db)
    → find id db.contracts ≡ some c
    → is_past_deadline now c ≡ true
    → (enforce_one id db).0 ≡ ok 1
unfolding enforce_one
enforce_one-counted now id c db e due = let active = is_active now c due in ground arith

module _ (now : ℕ) (old : Db) where
  enforce_one-Processes :
      Processes
        (λ (db : Db). db.contracts)
        (is_past_deadline now)
        enforce_one
        (SameButContracts old)
  enforce_one-Processes id c db e due h = (
    enforce_one-counted now id c db e due,
    then-same old db (enforce_one id db).1 h (enforce_one-same id db),
    (breached_contract c, refl, enforce_one-late now id c db e due),
  )

-- Where no contract's key is given twice, the task returns as many as were active past a
-- deadline, leaves no active contract past a deadline, and changes contracts and the journal alone: no penalty is taken
-- and no balance moves.
pub enforce_sla-NoneLate :
    (now : ℕ) (db : Db)
    → Distinct db.contracts
    → ((enforce_sla now db).0 ≡ ok (length (get_active_past_deadline now db.contracts)))
      × SameButContracts db (enforce_sla now db).1
      × ((id : ℕ) (c : SlaContract)
          → find id (enforce_sla now db).1.contracts ≡ some c
          → is_past_deadline now c ≡ false)
unfolding enforce_sla
enforce_sla-NoneLate now db ds =
    let (counts, same, none_left) =
      count_each-Processes (λ (s : Db). s.contracts) (is_past_deadline now) enforce_one
        (SameButContracts db) (enforce_one-Processes now db) db ds refl in
    (counts, same, none_left)
