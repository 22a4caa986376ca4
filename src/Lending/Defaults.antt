-- ===== src/Lending/Defaults.antt =====
-- The task that puts overdue loans in default.
use sthrip.Base.{
  ℕ, ◌≡◌, ◌∙◌, none, some, Option, inl, inr, arith, refl, true, false, or_default, Bool-cases,
  length,
}
use sthrip.Base.Int.{ℤ, pos, ◌+ℤ◌, ltb_ℤ, int_laws, parts}
use sthrip.Base.Table.{find, sum-set}
use sthrip.Base.Keys.{Distinct}
use sthrip.Base.Counts.{Processes, count_each-Processes}
use sthrip.Base.Action.{ok}
use sthrip.Models.Lending.{AgentLoan, LoanStatus, is_active_loan}
use sthrip.Models.Database.{Db, Balances}
use sthrip.Ledger.Held.{held, counted, counted_zero, held-amend}
use sthrip.Ledger.Rows.{paid, add_available}
use sthrip.Accounting.{assets, in_pledge, locked_collateral}
use sthrip.Lending.Loans.{get_overdue_active_loans, is_overdue, defaulted_loan}
use sthrip.Lending.Service.{detect_default, detect_defaults}
use sthrip.Lending.Outcomes.{defaulted_state, detect_default-overdue, collateral_token}

-- Collateral is paid out where it is positive, which is where it was locked.
held-paid-collateral :
    (u now a t : ℕ) (c : Option ℤ) (rows : Balances)
    → held u (paid now a (or_default c (pos 0)) t rows)
      ≡ held u rows +ℤ counted u t (locked_collateral c)
unfolding paid
held-paid-collateral u now a t none rows = omega (int_laws, parts (counted_zero u t))
held-paid-collateral u now a t (some x) rows = elim (Bool-cases (ltb_ℤ (pos 0) x)) [
  | inl yes_positive ↦
      rw yes_positive (held-amend u now a t (add_available now x) x rows (λ _. refl))
  | inr not_positive ↦ rw not_positive (omega (int_laws, parts (counted_zero u t)))
]

active_state : (s : LoanStatus) → is_active_loan s ≡ true → s ≡ LoanStatus.active
active_state s h = ground arith

defaulted_state-assets :
    (u now id : ℕ) (l : AgentLoan) (db : Db)
    → find id db.loans ≡ some l
    → l.state ≡ LoanStatus.active
    → assets u (defaulted_state now id l db) ≡ assets u db
unfolding assets in_pledge
defaulted_state-assets u now id l db e st =
    let t = collateral_token l in
    let kept : in_pledge u l ≡ counted u t (locked_collateral l.collateral_amount) = rw st refl in
    omega (
      int_laws,
      parts kept,
      parts (counted_zero u t),
      parts (held-paid-collateral u now l.lender_id t l.collateral_amount db.balances),
      parts (sum-set (in_pledge u) id (defaulted_loan now l) l db.loans e),
    )

detect_default-Processes :
    (u now : ℕ) (a : ℤ)
    → Processes
        (λ (db : Db). db.loans)
        (is_overdue now)
        (detect_default now)
        (λ db. assets u db ≡ a)
detect_default-Processes u now a id l db e due h =
    let active : is_active_loan l.state ≡ true = ground arith in
    rw (detect_default-overdue now id l db e due) (
      refl,
      defaulted_state-assets u now id l db e (active_state l.state active) ∙ h,
      (defaulted_loan now l, refl, refl),
    )

-- Where no loan's key is given twice, the task returns as many loans as were overdue, leaves the books
-- of every token as they were, and leaves no active loan whose time has passed.
pub detect_defaults-assets :
    (u now : ℕ) (db : Db)
    → Distinct db.loans
    → ((detect_defaults now db).0 ≡ ok (length (get_overdue_active_loans now db.loans)))
      × (assets u (detect_defaults now db).1 ≡ assets u db)
      × ((id : ℕ) (l : AgentLoan)
          → find id (detect_defaults now db).1.loans ≡ some l
          → is_overdue now l ≡ false)
unfolding detect_defaults
detect_defaults-assets u now db ds =
    let (counts, kept, none_left) =
      count_each-Processes (λ (s : Db). s.loans) (is_overdue now) (detect_default now)
        (λ s. assets u s ≡ assets u db) (detect_default-Processes u now (assets u db)) db ds refl in
    (counts, kept, none_left)
