-- ===== src/Lending/Service.antt =====
-- The methods of `CreditService` (sthrip/services/credit_service.py). It passes `audit_log` no `db`.
use sthrip.Base.{
  ℕ, ◌+◌, ◌-◌, String, Option, none, some, List, [], ◌∷◌, Bool, false, not, ◌&&◌, ◌||◌, ◌==◌, ltb,
  if◌then◌else◌, or_default,
}
use sthrip.Base.Int.{ℤ, pos, ◌+ℤ◌, ◌-ℤ◌, ltb_ℤ, leb_ℤ, scale}
use sthrip.Base.Table.{find, set}
use sthrip.Base.Counts.{count_each}
use sthrip.Base.Action.{
  Action, ok, err, pure, gets, or_raise, raise_if, ◌>>=◌, ◌>>◌, value_error, lookup_error,
  permission_error, runtime_error, type_error,
}
use sthrip.Models.Parties.{Agent, AgentReputation, xmr}
use sthrip.Models.Lending.{AgentLoan, LendingOffer, AgentCreditScore, is_requested, is_active_loan}
use sthrip.Models.Database.{Db, queue_webhook_with_db, audit_log_apart}
use sthrip.Ledger.Rows.{credit, deduct, get_available, credit_positive}
use sthrip.Lending.Loans
use sthrip.Lending.Loans.{OfferTerms, Terms}
use sthrip.Lending.Credits
use sthrip.Lending.Scoring.{
  max_borrow_amount, min_ℤ, max_ℤ, rep_factor, loan_factor, activity_factor,
}

-- The arguments of `request_loan`.
pub record LoanRequest : Type 0 where
  pub borrower_id : ℕ
  pub amount : ℤ
  pub currency : ℕ
  pub duration_secs : ℕ
  pub collateral_amount : ℤ

-- The conditions of the comprehension `matching`.
abbrev pub is_matching : ℤ → LoanRequest → LendingOffer → Bool
is_matching score r o =
    leb_ℤ o.min_borrower_credit_score score
    && not (o.lender_id == r.borrower_id)
    && (not o.require_collateral || ltb_ℤ (pos 0) r.collateral_amount)

-- `matching[0]`
unfoldable pub best_offer : ℤ → LoanRequest → List LendingOffer → Option LendingOffer
best_offer score r [] = none
best_offer score r (o ∷ os) =
    let later = best_offer score r os in if is_matching score r o then some o else later

-- `if collateral_amount > Decimal("0"): deduct(…)`
abbrev pub lock_collateral : ℕ → LoanRequest → Action Db (Unit {0})
lock_collateral now r db =
    if ltb_ℤ (pos 0) r.collateral_amount
    then deduct now r.borrower_id r.collateral_amount r.currency db
    else (ok tt, db)

abbrev pub terms_of : LendingOffer → LoanRequest → Terms
terms_of o r = record {
  lender_id = o.lender_id;
  borrower_id = r.borrower_id;
  principal = r.amount;
  interest_rate_bps = o.interest_rate_bps;
  duration_secs = r.duration_secs;
  repayment_amount = scale r.amount (10000 + o.interest_rate_bps) 10000;
  currency = r.currency;
  collateral_amount = r.collateral_amount;
  collateral_currency = if ltb_ℤ (pos 0) r.collateral_amount then some r.currency else none;
}

-- A record that is there, with its time, for less than `_STALENESS_SECONDS`.
abbrev pub is_fresh : ℕ → Option AgentCreditScore → Bool
is_fresh now none = false
is_fresh now (some r) = elim r.calculated_at [ none ↦ false | some at ↦ ltb now (at + 300) ]

-- `loan_obj.platform_fee = platform_fee`
abbrev pub set_platform_fee : ℕ → ℤ → Action Db (Unit {0})
set_platform_fee id fee db = elim (find id db.loans) [
  | none ↦ (err type_error, db)
  | some l ↦ (ok tt, record db { loans = set id (record l { platform_fee = fee }) db.loans })
]

abbrev pub secs_since : ℕ → Option ℕ → ℕ
secs_since now none = 0
secs_since now (some at) = now - at

abbrev pub platform_fee_of : AgentLoan → ℤ
platform_fee_of l = scale (l.repayment_amount -ℤ l.principal) 1 100

unfoldable pub fund_loan : ℕ → ℕ → ℕ → Action Db AgentLoan
unfolding deduct credit Loans.fund Credits.record_loan_taken
fund_loan now lender id = do
  loan ← or_raise (← Loans.get_by_id id) lookup_error
  raise_if (not (is_requested loan.state)) value_error
  raise_if (not (loan.lender_id == lender)) permission_error
  deduct now lender loan.principal loan.currency
  credit now loan.borrower_id loan.principal loan.currency
  rows ← Loans.fund now id
  raise_if (rows == 0) runtime_error
  Credits.record_loan_taken now loan.borrower_id loan.principal
  loan ← or_raise (← Loans.get_by_id id) type_error
  audit_log_apart "lending.loan_funded" (some lender)
  queue_webhook_with_db
  pure loan

-- What `request_loan` does with the score.
unfoldable pub lend : Loans.TieOrder → ℕ → ℕ → String → LoanRequest → ℤ → Action Db AgentLoan
unfolding Loans.list_active_offers best_offer deduct Loans.create scale
lend ties now id hash r score = do
  offers ← Loans.list_active_offers ties now r.currency r.amount r.duration_secs
  offer ← or_raise (best_offer score r offers) value_error
  lock_collateral now r
  loan ← Loans.create now id hash (terms_of offer r)
  audit_log_apart "lending.loan_requested" (some r.borrower_id)
  pure loan

-- `points x` is `int(float(x) * 20)`.
module _ (points : ℤ → ℤ) where
  abbrev pub score_of : ℕ → Agent → Option AgentReputation → AgentCreditScore → ℤ → ℤ
  score_of now agent rep r balance = min_ℤ (pos 1000) (
      rep_factor rep
      +ℤ loan_factor r
      +ℤ activity_factor now agent rep
      +ℤ min_ℤ (pos 200) (points balance))

  unfoldable pub calculate_credit_score : ℕ → ℕ → Action Db ℤ
  unfolding get_available Credits.get_or_create Credits.update_score max_borrow_amount scale
  calculate_credit_score now id = do
    agent ← or_raise (← gets (λ (db : Db). find id db.agents)) lookup_error
    rep ← gets (λ (db : Db). find id db.reputations)
    credit_record ← Credits.get_or_create now id
    balance ← get_available now id xmr
    let total : ℤ = score_of now agent rep credit_record balance
    Credits.update_score now id total (max_borrow_amount total (pos 0))
        (max_ℤ (pos 1) (scale total 1 200))
    audit_log_apart "credit.score_calculated" (some id)
    pure total

  unfoldable pub get_credit_score : ℕ → ℕ → Action Db (Option AgentCreditScore)
  unfolding calculate_credit_score
  get_credit_score now id = do
    record' ← Credits.get id
    if is_fresh now record' then pure record' else (calculate_credit_score now id >> Credits.get id)

  unfoldable pub request_loan : Loans.TieOrder → ℕ → ℕ → String → LoanRequest → Action Db AgentLoan
  request_loan ties now id hash r = do
    score ← calculate_credit_score now r.borrower_id
    lend ties now id hash r score

  unfoldable pub repay_loan : ℕ → ℕ → ℕ → Action Db AgentLoan
  unfolding deduct credit credit_positive Loans.repay Credits.record_loan_repaid
      calculate_credit_score scale
  repay_loan now borrower id = do
    loan ← or_raise (← Loans.get_by_id id) lookup_error
    raise_if (not (is_active_loan loan.state)) value_error
    raise_if (not (loan.borrower_id == borrower)) permission_error
    deduct now borrower loan.repayment_amount loan.currency
    credit now loan.lender_id (loan.repayment_amount -ℤ platform_fee_of loan) loan.currency
    credit_positive now borrower (or_default loan.collateral_amount (pos 0))
        (or_default loan.collateral_currency loan.currency)
    set_platform_fee id (platform_fee_of loan)
    rows ← Loans.repay now id loan.repayment_amount
    raise_if (rows == 0) runtime_error
    Credits.record_loan_repaid now borrower (secs_since now loan.funded_at)
    calculate_credit_score now borrower
    loan ← or_raise (← Loans.get_by_id id) type_error
    audit_log_apart "lending.loan_repaid" (some borrower)
    queue_webhook_with_db
    pure loan

unfoldable pub create_offer : ℕ → ℕ → OfferTerms → Action Db LendingOffer
unfolding get_available Loans.create_offer
create_offer now id t = do
  available ← get_available now t.lender_id t.currency
  raise_if (ltb_ℤ available t.max_amount) value_error
  offer ← Loans.create_offer id (now + 2592000) t
  audit_log_apart "lending.offer_created" (some t.lender_id)
  pure offer

unfoldable pub withdraw_offer : ℕ → ℕ → Action Db (Unit {0})
unfolding Loans.deactivate_offer
withdraw_offer lender id = do
  rows ← Loans.deactivate_offer id lender
  raise_if (rows == 0) lookup_error
  audit_log_apart "lending.offer_withdrawn" (some lender)

-- The rest of an iteration of `detect_defaults` for a loan that was active: 1 for its result.
abbrev pub liquidate_collateral : ℕ → AgentLoan → Action Db ℕ
liquidate_collateral now loan = do
  credit_positive now loan.lender_id (or_default loan.collateral_amount (pos 0))
      (or_default loan.collateral_currency loan.currency)
  Credits.record_loan_defaulted now loan.borrower_id (secs_since now loan.funded_at)
  audit_log_apart "lending.loan_defaulted" (some loan.borrower_id)
  pure 1

abbrev pub default_found : ℕ → ℕ → Option AgentLoan → Action Db ℕ
default_found now id none = pure 0
default_found now id (some loan) = do
  rows ← Loans.default now id
  if rows == 0 then pure 0 else liquidate_collateral now loan

-- One iteration of `detect_defaults`.
unfoldable pub detect_default : ℕ → ℕ → Action Db ℕ
unfolding credit_positive Loans.default Credits.record_loan_defaulted
detect_default now id = do loan ← Loans.get_by_id id; default_found now id loan

-- The code returns the loans that it put in default; here it is how many.
unfoldable pub detect_defaults : ℕ → Action Db ℕ
unfolding detect_default count_each
detect_defaults now = do
  overdue ← gets (λ (db : Db). Loans.get_overdue_active_loans now db.loans)
  count_each (detect_default now) overdue

unfoldable pub get_loan : ℕ → ℕ → Action Db AgentLoan
get_loan id agent = do
  loan ← or_raise (← Loans.get_by_id id) lookup_error
  raise_if (not (loan.lender_id == agent) && not (loan.borrower_id == agent)) permission_error
  pure loan
