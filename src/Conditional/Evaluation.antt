-- ===== src/Conditional/Evaluation.antt =====
-- The task that evaluates the conditions of conditional payments.
use sthrip.Base.{
  ℕ, ◌≡◌, ◌≢◌, ◌∙◌, none, some, Option, inl, inr, arith, refl, true, false, Option-cases,
  Bool-cases, Bool, if◌then◌else◌,
}
use sthrip.Base.Int.{ℤ, pos, int_laws, parts}
use sthrip.Base.Table.{find, sum}
use sthrip.Base.Counts.{count_each-keeps}
use sthrip.Base.Action.{Result, ok, err}
use sthrip.Models.Payments.{
  ConditionalPayment, ConditionalPaymentState, ConditionType, ParsedId, is_pending,
}
use sthrip.Models.Database.{Db}
use sthrip.Ledger.Held.{counted_zero, held-get_for_update}
use sthrip.Ledger.Rows.{get_available}
use sthrip.Accounting.{assets, in_lock}
use sthrip.Conditional.Repo
use sthrip.Conditional.Service.{
  condition_met, below_threshold, execute_if, evaluate, evaluate_conditions, escrow_met,
}
use sthrip.Conditional.Outcomes.{executed_state, execute-triggered, paid_payment}
use sthrip.Conditional.Books.{settled-assets}

-- The ids that the condition names are texts or null.
abbrev pub IsReadable : ConditionalPayment → Type 0
IsReadable p =
    (p.condition_config.escrow_id ≢ ParsedId.not_text)
    × (p.condition_config.agent_id ≢ ParsedId.not_text)

module _ (u now : ℕ) (p : ConditionalPayment) (db : Db) where
  asked-quiet :
      (a : ParsedId) (x : Option ℤ)
      → let db' = (below_threshold now p.currency a x db).1 in
        (assets u db' ≡ assets u db) × (db'.conditionals ≡ db.conditionals)
  unfolding get_available assets
  asked-quiet (ParsedId.known a) (some x) =
      (omega (int_laws, parts (held-get_for_update u now a p.currency db.balances)), refl)
  asked-quiet (ParsedId.known a) none = (refl, refl)
  asked-quiet ParsedId.malformed x = (refl, refl)
  asked-quiet ParsedId.not_text x = (refl, refl)

  escrow-quiet : (escrow_met p.condition_config db).1 ≡ db
  escrow-quiet = ground arith

  -- Asking whether a condition is met may lock a balance, and moves no money.
  condition_met-quiet :
      (t : ConditionType)
      → let db' = (condition_met now p t db).1 in
        (assets u db' ≡ assets u db) × (db'.conditionals ≡ db.conditionals)
  unfolding condition_met
  condition_met-quiet ConditionType.time_lock = (refl, refl)
  condition_met-quiet ConditionType.escrow_completed = rw escrow-quiet (refl, refl)
  condition_met-quiet ConditionType.balance_threshold =
      asked-quiet p.condition_config.agent_id p.condition_config.threshold
  condition_met-quiet ConditionType.webhook = (refl, refl)
  condition_met-quiet ConditionType.other = (refl, refl)

execute_if-triggered :
    (now id : ℕ) (p : ConditionalPayment) (db : Db)
    → find id db.conditionals ≡ some p
    → is_pending p.state ≡ true
    → execute_if now id true db ≡ (ok 1, executed_state now id p db)
unfolding Repo.trigger
execute_if-triggered now id p db e st = ground (arith, execute-triggered now id p db e)

execute_if-answered :
    (now id : ℕ) (p : ConditionalPayment) (db : Db)
    → find id db.conditionals ≡ some p
    → is_pending p.state ≡ false
    → execute_if now id true db ≡ (ok 0, db)
unfolding Repo.trigger
execute_if-answered now id p db e st = ground arith

pending_state :
    (s : ConditionalPaymentState) → is_pending s ≡ true → s ≡ ConditionalPaymentState.pending
pending_state s h = ground arith

-- How many payments have been executed.
abbrev is_executed : ConditionalPaymentState → Bool
is_executed ConditionalPaymentState.executed = true
is_executed _ = false

abbrev executed_one : ConditionalPayment → ℤ
executed_one p = if is_executed p.state then pos 1 else pos 0

unfoldable pub executed_count : Db → ℤ
executed_count db = sum executed_one db.conditionals

-- The ids that conditions name can be read.
abbrev pub AllReadable : Db → Type 0
AllReadable db = (id : ℕ) (p : ConditionalPayment) → find id db.conditionals ≡ some p → IsReadable p

module _ (u : ℕ) (a : ℤ) where
  abbrev Kept : Db → Type 0
  Kept s = AllReadable s × (assets u s ≡ a)

  executed_state-assets :
      (now id : ℕ) (p : ConditionalPayment) (db : Db)
      → find id db.conditionals ≡ some p
      → is_pending p.state ≡ true
      → assets u (executed_state now id p db) ≡ assets u db
  unfolding in_lock
  executed_state-assets now id p db e st =
      settled-assets u now id p.to_agent_id p (paid_payment now p) db (executed_state now id p db) e
        (pending_state p.state st) (counted_zero u p.currency)

  -- The books alone, whatever the conditions are.
  execute_if-kept :
      (now id : ℕ) (met : Bool) (p : ConditionalPayment) (db : Db)
      → find id db.conditionals ≡ some p
      → assets u (execute_if now id met db).1 ≡ assets u db
  execute_if-kept now id false p db e = refl
  execute_if-kept now id true p db e = elim (Bool-cases (is_pending p.state)) [
    | inl st ↦ rw (execute_if-triggered now id p db e st) (executed_state-assets now id p db e st)
    | inr st ↦ rw (execute_if-answered now id p db e st) refl
  ]

  decided-kept :
      (now id : ℕ) (p : ConditionalPayment) (x : Result Bool × Db)
      → find id x.1.conditionals ≡ some p
      → assets u x.1 ≡ a
      → assets u
          (elim x.0 as (λ _. Result ℕ × Db) [
            | ok met ↦ execute_if now id met x.1
            | err r ↦ (err r, x.1)
          ]).1
        ≡ a
  decided-kept now id p (ok met, s) e h = execute_if-kept now id met p s e ∙ h
  decided-kept now id p (err r, s) e h = h

  evaluate-kept : (now id : ℕ) (db : Db) → assets u db ≡ a → assets u (evaluate now id db).1 ≡ a
  unfolding evaluate
  evaluate-kept now id db h = elim (Option-cases (find id db.conditionals)) [
    | inl e ↦ rw e h
    | inr (p, e) ↦
        let (quiet, same) = condition_met-quiet u now p db p.condition_type in
        rw e
          (decided-kept now id p (condition_met now p p.condition_type db) (rw same e) (quiet ∙ h))
  ]

-- The evaluation task leaves the books of every token as they were, whatever the conditions are and
-- however it ends.
pub evaluate_conditions-assets :
    (u now : ℕ) (db : Db) → assets u (evaluate_conditions now db).1 ≡ assets u db
unfolding evaluate_conditions
evaluate_conditions-assets u now db =
    count_each-keeps (λ s. assets u s ≡ assets u db) (evaluate now)
      (λ id s. evaluate-kept u (assets u db) now id s) (Repo.get_pending db.conditionals) db refl
