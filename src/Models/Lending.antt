-- ===== src/Models/Lending.antt =====
-- Loans, lending offers and credit scores (sthrip/db/models.py).
use sthrip.Base.{ℕ, Option, String, Bool, true, false}
use sthrip.Base.Int.{ℤ}

pub data LoanStatus : Type 0 where
  requested active repaid defaulted liquidated cancelled : LoanStatus

pub record AgentLoan : Type 0 where
  pub loan_hash : String
  pub lender_id : ℕ
  pub borrower_id : ℕ
  pub principal : ℤ
  pub currency : ℕ
  pub interest_rate_bps : ℕ
  pub duration_secs : ℕ
  pub collateral_amount : Option ℤ
  pub collateral_currency : Option ℕ
  pub repayment_amount : ℤ
  pub repaid_amount : ℤ
  pub state : LoanStatus
  pub expires_at : ℕ
  pub grace_period_secs : ℕ
  pub requested_at : ℕ
  pub funded_at : Option ℕ
  pub repaid_at : Option ℕ
  pub defaulted_at : Option ℕ
  pub platform_fee : ℤ

pub record LendingOffer : Type 0 where
  pub lender_id : ℕ
  pub max_amount : ℤ
  pub currency : ℕ
  pub interest_rate_bps : ℕ
  pub max_duration_secs : ℕ
  pub min_borrower_credit_score : ℤ
  pub require_collateral : Bool
  pub collateral_ratio_pct : ℕ
  pub is_active : Bool
  pub remaining_amount : ℤ
  pub expires_at : ℕ

pub record AgentCreditScore : Type 0 where
  pub credit_score : ℤ
  pub total_loans_taken : ℕ
  pub total_loans_repaid : ℕ
  pub total_loans_defaulted : ℕ
  pub total_borrowed_volume : ℤ
  pub avg_repayment_time_secs : Option ℕ
  pub longest_default_secs : Option ℕ
  pub max_borrow_amount : ℤ
  pub max_concurrent_loans : ℤ
  pub calculated_at : Option ℕ

abbrev pub is_requested : LoanStatus → Bool
is_requested LoanStatus.requested = true
is_requested _ = false

abbrev pub is_active_loan : LoanStatus → Bool
is_active_loan LoanStatus.active = true
is_active_loan _ = false

abbrev pub is_defaulted : LoanStatus → Bool
is_defaulted LoanStatus.defaulted = true
is_defaulted _ = false
