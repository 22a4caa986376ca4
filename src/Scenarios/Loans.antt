-- ===== src/Scenarios/Loans.antt =====
-- Runs of the lending service.
use sthrip.Base.{ℕ, ◌≡◌, ◌⊎◌, none, some, [], ◌∷◌, true, false, refl, arith, length}
use sthrip.Base.Int.{ℤ, pos, ◌+ℤ◌, ◌≤ℤ◌, scale}
use sthrip.Base.Table.{find}
use sthrip.Base.Action.{ok, Raised}
use sthrip.Models.Parties.{xmr, audit}
use sthrip.Models.Lending.{AgentLoan, LoanStatus, LendingOffer}
use sthrip.Models.Database.{Db, Abandoned, transact_apart}
use sthrip.Accounting.{assets}
use sthrip.Ledger.Balance.{available_of}
use sthrip.Ledger.Rows.{find_row}
use sthrip.Lending.Loans.{
  TieOrder, is_overdue, sorted_offers, insert_by_rate, limited, get_overdue_active_loans,
}
use sthrip.Lending.Credits.{with_record}
use sthrip.Lending.Service.{
  LoanRequest, best_offer, calculate_credit_score, request_loan, fund_loan, repay_loan,
  detect_defaults,
}
use sthrip.Lending.Scoring.{rep_factor, loan_factor, activity_factor, min_ℤ}
use sthrip.Lending.Outcomes.{lending_calls_never_commit}
use sthrip.Lending.Defaults.{detect_defaults-assets}
use sthrip.Lending.Scores.{Nonneg, score_in, scored_state, calculate_credit_score-bounds, Within}
use sthrip.Lending.Requests.{IsSecured, requested_loan, requested_state, request_loan_outcome}
use sthrip.Lending.Offers.{IsCheapest, NoneFits, IsWhole, offers_for, best_offer-IsCheapest}
use sthrip.Scenarios.World.{world, agent}

-- The points of a balance where the conversion to a float loses nothing.
abbrev points : ℤ → ℤ
points x = scale x 20 10000000000000000

abbrev offer : ℕ → LendingOffer
offer rate = record {
  lender_id = 2;
  max_amount = pos 900;
  currency = 0;
  interest_rate_bps = rate;
  max_duration_secs = 5000;
  min_borrower_credit_score = pos 0;
  require_collateral = true;
  collateral_ratio_pct = 100;
  is_active = true;
  remaining_amount = pos 900;
  expires_at = 500;
}

abbrev running : AgentLoan
running = record {
  loan_hash = "hash";
  lender_id = 2;
  borrower_id = 1;
  principal = pos 400;
  currency = 0;
  interest_rate_bps = 500;
  duration_secs = 80;
  collateral_amount = some (pos 100);
  collateral_currency = some 0;
  repayment_amount = pos 420;
  repaid_amount = pos 0;
  state = LoanStatus.active;
  expires_at = 80;
  grace_period_secs = 300;
  requested_at = 0;
  funded_at = some 10;
  repaid_at = none;
  defaulted_at = none;
  platform_fee = pos 0;
}

abbrev lending : Db
lending = record world {
  loans = (41, running) ∷ [];
  offers = (51, offer 700) ∷ (52, offer 500) ∷ [];
}

abbrev request : LoanRequest
request = record {
  borrower_id = 1;
  amount = pos 400;
  currency = 0;
  duration_secs = 100;
  collateral_amount = pos 200;
}

lending_calls_never_commit_example :
    let funded = audit "lending.loan_funded" (some 2) none ∷ lending.own_audits in
    let scored = audit "credit.score_calculated" (some 2) none ∷ lending.own_audits in
    let repaid = audit "lending.loan_repaid" (some 2) none ∷ scored in
    Raised (fund_loan 60 2 41 lending).0
    × Raised (repay_loan points 60 2 41 lending).0
    × Abandoned lending (transact_apart (fund_loan 60 2 41) lending).1 (funded ∷ [])
    × Abandoned lending
        (transact_apart (repay_loan points 60 2 41) lending).1
        (scored ∷ repaid ∷ [])
lending_calls_never_commit_example = lending_calls_never_commit points 60 2 41 lending

detect_defaults-assets_example :
    ((detect_defaults 95 lending).0 ≡ ok (length (get_overdue_active_loans 95 lending.loans)))
    × (assets 0 (detect_defaults 95 lending).1 ≡ assets 0 lending)
    × ((id : ℕ) (l : AgentLoan)
        → find id (detect_defaults 95 lending).1.loans ≡ some l
        → is_overdue 95 l ≡ false)
unfolding find
detect_defaults-assets_example = detect_defaults-assets 0 95 lending (refl, tt)

finds_borrower : find 1 lending.agents ≡ some agent
unfolding find
finds_borrower = refl

-- Rows of one rate come in any order; here the later row is first.
abbrev ties : TieOrder
ties o o' = false

few_offers : IsWhole ties 60 request lending
unfolding sorted_offers insert_by_rate
few_offers = omega arith

request_loan_outcome_example :
    let score = score_in points 60 1 agent lending in
    let s = scored_state 60 1 score lending in
    (NoneFits 60 score request lending
      × Raised (request_loan points ties 60 42 "hash" request lending).0)
    ⊎ ((o : LendingOffer) × IsCheapest 60 score request lending o
        × ((IsSecured 42 request s
              × (request_loan points ties 60 42 "hash" request lending ≡ (
                ok (requested_loan 60 "hash" o request),
                requested_state 60 42 "hash" o request s,
              )))
            ⊎ ((¬ IsSecured 42 request s)
                × Raised (request_loan points ties 60 42 "hash" request lending).0)))
request_loan_outcome_example =
    request_loan_outcome ties points 60 42 "hash" request agent lending finds_borrower few_offers

best_offer-IsCheapest_example :
    ((best_offer (pos 150) request (offers_for ties 60 request lending) ≡ none)
      × NoneFits 60 (pos 150) request lending)
    ⊎ ((o : LendingOffer) × (best_offer (pos 150) request (offers_for ties 60 request lending)
          ≡ some o)
        × IsCheapest 60 (pos 150) request lending o)
best_offer-IsCheapest_example = best_offer-IsCheapest ties 60 (pos 150) request lending few_offers

-- The second offer is the cheaper one.
chooses_cheaper :
    best_offer (pos 150) request (offers_for ties 60 request lending) ≡ some (offer 500)
unfolding best_offer sorted_offers insert_by_rate limited
chooses_cheaper = refl

calculate_credit_score-bounds_example :
    (score : ℤ) × ((calculate_credit_score points 60 1 lending).0 ≡ ok score)
    × Nonneg score
    × (score ≤ℤ pos 1000)
    × (score
        ≡ rep_factor (find 1 lending.reputations)
          +ℤ loan_factor (with_record 60 1 lending.credits).0
          +ℤ activity_factor 60 agent (find 1 lending.reputations)
          +ℤ min_ℤ (pos 200) (points (available_of 1 xmr lending)))
    × Within 300 (rep_factor (find 1 lending.reputations))
    × Within 300 (loan_factor (with_record 60 1 lending.credits).0)
    × Within 200 (activity_factor 60 agent (find 1 lending.reputations))
    × Within 200 (min_ℤ (pos 200) (points (available_of 1 xmr lending)))
unfolding find available_of find_row scale
calculate_credit_score-bounds_example =
    calculate_credit_score-bounds points 60 1 agent lending finds_borrower
      ((λ r e. ground arith), (λ created e. ground arith), omega arith)
