-- ===== src/Lending/Requests.antt =====
-- Requests for loans.
use sthrip.Base.{◌+◌, ℕ, ◌≡◌, ◌⊎◌, String, none, some, inl, inr, ◌∷◌, arith, false, if◌then◌else◌}
use sthrip.Base.Int.{ℤ, pos, ◌≤ℤ◌, ltb_ℤ, scale}
use sthrip.Base.Table.{find}
use sthrip.Base.Action.{ok, bind-ok, Raised}
use sthrip.Models.Parties.{Agent, audit}
use sthrip.Models.Lending.{AgentLoan, LendingOffer, LoanStatus}
use sthrip.Models.Database.{Db}
use sthrip.Ledger.Rows.{amend, take_available, get_for_update, find_row}
use sthrip.Ledger.Balance.{available_of}
use sthrip.Lending.Loans.{TieOrder}
use sthrip.Lending.Offers.{IsCheapest, NoneFits, IsWhole, offers_for, best_offer-IsCheapest}
use sthrip.Lending.Service.{LoanRequest, best_offer, lend, request_loan, calculate_credit_score}
use sthrip.Lending.Scores.{score_in, scored_state, calculate-known}

-- The loan of an offer: its lender and its rate, and what the request says.
abbrev pub requested_loan : ℕ → String → LendingOffer → LoanRequest → AgentLoan
requested_loan now hash o r = record {
  loan_hash = hash;
  lender_id = o.lender_id;
  borrower_id = r.borrower_id;
  principal = r.amount;
  currency = r.currency;
  interest_rate_bps = o.interest_rate_bps;
  duration_secs = r.duration_secs;
  collateral_amount = some r.collateral_amount;
  collateral_currency = if ltb_ℤ (pos 0) r.collateral_amount then some r.currency else none;
  repayment_amount = scale r.amount (10000 + o.interest_rate_bps) 10000;
  repaid_amount = pos 0;
  state = LoanStatus.requested;
  expires_at = now + r.duration_secs;
  grace_period_secs = 300;
  requested_at = now;
  funded_at = none;
  repaid_at = none;
  defaulted_at = none;
  platform_fee = pos 0;
}

-- The session after the borrower's collateral was taken, if any was offered, and the loan stored.
abbrev pub requested_state : ℕ → ℕ → String → LendingOffer → LoanRequest → Db → Db
requested_state now id hash o r db = record db {
  balances =
      if ltb_ℤ (pos 0) r.collateral_amount
      then amend now r.borrower_id r.currency (take_available now r.collateral_amount) db.balances
      else db.balances;
  loans = (id, requested_loan now hash o r) ∷ db.loans;
  own_audits = audit "lending.loan_requested" (some r.borrower_id) none ∷ db.own_audits;
}

-- What the rest of a request asks, once the borrower was scored and an offer was found.
abbrev pub IsSecured : ℕ → LoanRequest → Db → Type 0
IsSecured id r db =
    ((ltb_ℤ (pos 0) r.collateral_amount ≡ false)
      ⊎ (r.collateral_amount ≤ℤ available_of r.borrower_id r.currency db))
    × (find id db.loans ≡ none)

module _ (ties : TieOrder) where
  lend-none :
      (now id : ℕ) (hash : String) (r : LoanRequest) (score : ℤ) (db : Db)
      → best_offer score r (offers_for ties now r db) ≡ none
      → Raised (lend ties now id hash r score db).0
  unfolding lend
  lend-none now id hash r score db n = ground arith

  lend-some :
      (now id : ℕ) (hash : String) (r : LoanRequest) (score : ℤ) (o : LendingOffer) (db : Db)
      → best_offer score r (offers_for ties now r db) ≡ some o
      → (IsSecured id r db
          × (lend ties now id hash r score db
              ≡ (ok (requested_loan now hash o r), requested_state now id hash o r db)))
        ⊎ ((¬ IsSecured id r db) × Raised (lend ties now id hash r score db).0)
  unfolding lend available_of get_for_update find_row
  lend-some now id hash r score o db f = ground arith

  module _ (points : ℤ → ℤ) where
    request_loan-lend :
        (now id : ℕ) (hash : String) (r : LoanRequest) (agent : Agent) (db : Db)
        → find r.borrower_id db.agents ≡ some agent
        → let score = score_in points now r.borrower_id agent db in
          request_loan points ties now id hash r db
          ≡ lend ties now id hash r score (scored_state now r.borrower_id score db)
    unfolding request_loan
    request_loan-lend now id hash r agent db e =
        let score = score_in points now r.borrower_id agent db in
        bind-ok (calculate_credit_score points now r.borrower_id) (lend ties now id hash r) db score
          (scored_state now r.borrower_id score db)
          (calculate-known points now r.borrower_id agent db e)

    -- A request of an agent that is there is compared with the agent's score, which is written first,
    -- in `scored_state`. Where no more than 50 offers are open for the request, the call raises if no
    -- row of the table of offers fits it (`Fits`: in force, for its token, amount and duration, for
    -- such a score, of another agent, and without collateral only if it asks for none). Else there is
    -- a row that fits, none that fits being cheaper, such that the call returns the loan of that row
    -- (principal and interest to be repaid), in `requested_state`, if the balance covers the collateral
    -- and the key is new, and raises if not. The limits on amounts and on loans that follow from the
    -- score play no part.
    pub request_loan_outcome :
        (now id : ℕ) (hash : String) (r : LoanRequest) (agent : Agent) (db : Db)
        → find r.borrower_id db.agents ≡ some agent
        → IsWhole ties now r db
        → let score = score_in points now r.borrower_id agent db in
          let s = scored_state now r.borrower_id score db in
          (NoneFits now score r db × Raised (request_loan points ties now id hash r db).0)
          ⊎ ((o : LendingOffer) × IsCheapest now score r db o
              × ((IsSecured id r s
                    × (request_loan points ties now id hash r db
                        ≡ (ok (requested_loan now hash o r), requested_state now id hash o r s)))
                  ⊎ ((¬ IsSecured id r s) × Raised (request_loan points ties now id hash r db).0)))
    request_loan_outcome now id hash r agent db e few =
        let score = score_in points now r.borrower_id agent db in
        let s = scored_state now r.borrower_id score db in
        rw (request_loan-lend now id hash r agent db e)
          elim (best_offer-IsCheapest ties now score r db few) [
            | inl (n, none_fits) ↦ inl (none_fits, lend-none now id hash r score s n)
            | inr (o, f, cheapest) ↦ inr (o, cheapest, lend-some now id hash r score o s f)
          ]
