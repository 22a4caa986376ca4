-- ===== src/Lending/Outcomes.antt =====
-- How the calls on loans end.
use sthrip.Base.{ℕ, ◌≡◌, refl, [], ◌∷◌, none, some, arith, true, or_default}
use sthrip.Base.Int.{ℤ, pos}
use sthrip.Base.Table.{find, set}
use sthrip.Base.Action.{ok, Raised}
use sthrip.Models.Lending.{AgentLoan}
use sthrip.Models.Parties.{audit}
use sthrip.Models.Database.{Db, Abandoned, OneOf, transact_apart, transact_apart-Raised}
use sthrip.Ledger.Rows.{paid}
use sthrip.Lending.Loans.{defaulted_loan, is_overdue}
use sthrip.Lending.Credits.{with_record, with_default}
use sthrip.Lending.Service.{fund_loan, repay_loan, detect_default, secs_since}

fund_loan-Raised : (now lender id : ℕ) (db : Db) → Raised (fund_loan now lender id db).0
unfolding fund_loan
fund_loan-Raised now lender id db = ground arith

fund_loan-own_audits :
    (now lender id : ℕ) (db : Db)
    → let funded = audit "lending.loan_funded" (some lender) none ∷ db.own_audits in
      OneOf (fund_loan now lender id db).1.own_audits (db.own_audits ∷ funded ∷ [])
unfolding fund_loan
fund_loan-own_audits now lender id db = ground arith

module _ (points : ℤ → ℤ) where
  repay_loan-Raised :
      (now borrower id : ℕ) (db : Db) → Raised (repay_loan points now borrower id db).0
  unfolding repay_loan
  repay_loan-Raised now borrower id db = ground arith

  repay_loan-own_audits :
      (now borrower id : ℕ) (db : Db)
      → let scored = audit "credit.score_calculated" (some borrower) none ∷ db.own_audits in
        let repaid = audit "lending.loan_repaid" (some borrower) none ∷ scored in
        OneOf
          (repay_loan points now borrower id db).1.own_audits
          (db.own_audits ∷ scored ∷ repaid ∷ [])
  unfolding repay_loan
  repay_loan-own_audits now borrower id db = ground arith

  -- Funding and repaying a loan never commit: whatever the request, the call raises, and its
  -- transaction leaves the database as it was but for audit rows that are committed apart. Those say,
  -- if the call got that far, that the loan was funded, or that the borrower was scored and, perhaps,
  -- that the loan was repaid.
  pub lending_calls_never_commit :
      (now agent id : ℕ) (db : Db)
      → let funded = audit "lending.loan_funded" (some agent) none ∷ db.own_audits in
        let scored = audit "credit.score_calculated" (some agent) none ∷ db.own_audits in
        let repaid = audit "lending.loan_repaid" (some agent) none ∷ scored in
        Raised (fund_loan now agent id db).0
        × Raised (repay_loan points now agent id db).0
        × Abandoned db (transact_apart (fund_loan now agent id) db).1 (funded ∷ [])
        × Abandoned db (transact_apart (repay_loan points now agent id) db).1 (scored ∷ repaid ∷ [])
  lending_calls_never_commit now agent id db =
      let funding = fund_loan-Raised now agent id db in
      let repaying = repay_loan-Raised now agent id db in
      (
        funding,
        repaying,
        rw (transact_apart-Raised (fund_loan now agent id) db funding)
            (refl, fund_loan-own_audits now agent id db),
        rw (transact_apart-Raised (repay_loan points now agent id) db repaying)
            (refl, repay_loan-own_audits now agent id db),
      )

abbrev pub collateral_token : AgentLoan → ℕ
collateral_token l = or_default l.collateral_currency l.currency

-- The session after an overdue loan was put in default.
abbrev pub defaulted_state : ℕ → ℕ → AgentLoan → Db → Db
defaulted_state now id l db =
    let (r, credits) = with_record now l.borrower_id db.credits in
    record db {
      balances =
          paid now l.lender_id (or_default l.collateral_amount (pos 0)) (collateral_token l)
            db.balances;
      loans = set id (defaulted_loan now l) db.loans;
      credits = set l.borrower_id (with_default (secs_since now l.funded_at) r) credits;
      own_audits = audit "lending.loan_defaulted" (some l.borrower_id) none ∷ db.own_audits;
    }

pub detect_default-overdue :
    (now id : ℕ) (l : AgentLoan) (db : Db)
    → find id db.loans ≡ some l
    → is_overdue now l ≡ true
    → detect_default now id db ≡ (ok 1, defaulted_state now id l db)
unfolding detect_default
detect_default-overdue now id l db e due = ground arith
