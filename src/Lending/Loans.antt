-- ===== src/Lending/Loans.antt =====
-- `LoanRepository` (sthrip/db/loan_repo.py).
use sthrip.Base.{
  ◌||◌, ℕ, ◌+◌, ◌-◌, String, Option, none, some, [], ◌∷◌, Bool, true, false, ◌&&◌, ◌==◌, leb, ltb,
  if◌then◌else◌, is_some, List,
}
use sthrip.Base.Int.{ℤ, pos, leb_ℤ}
use sthrip.Base.Table.{Table, find, update_where}
use sthrip.Base.Keys.{keys_where}
use sthrip.Base.Action.{Action, ok, err, integrity_error, gets}
use sthrip.Models.Lending.{
  AgentLoan, LoanStatus, LendingOffer, is_requested, is_active_loan, is_defaulted,
}
use sthrip.Models.Database.{Db}

-- The arguments of `create` but the hash.
pub record Terms : Type 0 where
  pub lender_id : ℕ
  pub borrower_id : ℕ
  pub principal : ℤ
  pub interest_rate_bps : ℕ
  pub duration_secs : ℕ
  pub repayment_amount : ℤ
  pub currency : ℕ
  pub collateral_amount : ℤ
  pub collateral_currency : Option ℕ

abbrev pub new_loan : ℕ → String → Terms → AgentLoan
new_loan now hash t = record {
  loan_hash = hash;
  lender_id = t.lender_id;
  borrower_id = t.borrower_id;
  principal = t.principal;
  currency = t.currency;
  interest_rate_bps = t.interest_rate_bps;
  duration_secs = t.duration_secs;
  collateral_amount = some t.collateral_amount;
  collateral_currency = t.collateral_currency;
  repayment_amount = t.repayment_amount;
  repaid_amount = pos 0;
  state = LoanStatus.requested;
  expires_at = now + t.duration_secs;
  grace_period_secs = 300;
  requested_at = now;
  funded_at = none;
  repaid_at = none;
  defaulted_at = none;
  platform_fee = pos 0;
}

unfoldable pub create : ℕ → ℕ → String → Terms → Action Db AgentLoan
create now id hash t db =
    let loan = new_loan now hash t in
    if is_some (find id db.loans)
    then (err integrity_error, db)
    else (ok loan, record db { loans = (id, loan) ∷ db.loans })

-- `get_by_id`, and `get_by_id_for_update`, which locks the row too.
abbrev pub get_by_id : ℕ → Action Db (Option AgentLoan)
get_by_id id = gets (λ db. find id db.loans)

abbrev pub update_loan : ℕ → (AgentLoan → Bool) → (AgentLoan → AgentLoan) → Action Db ℕ
update_loan id p f db =
    let (rows, loans) = update_where id p f db.loans in (ok rows, record db { loans = loans })

abbrev pub funded_loan : ℕ → AgentLoan → AgentLoan
funded_loan now l = record l { state = LoanStatus.active; funded_at = some now }

unfoldable pub fund : ℕ → ℕ → Action Db ℕ
fund now id = update_loan id (λ l. is_requested l.state) (funded_loan now)

abbrev pub repaid_loan : ℕ → ℤ → AgentLoan → AgentLoan
repaid_loan now amount l = record l {
  state = LoanStatus.repaid;
  repaid_amount = amount;
  repaid_at = some now;
}

unfoldable pub repay : ℕ → ℕ → ℤ → Action Db ℕ
repay now id amount = update_loan id (λ l. is_active_loan l.state) (repaid_loan now amount)

abbrev pub defaulted_loan : ℕ → AgentLoan → AgentLoan
defaulted_loan now l = record l { state = LoanStatus.defaulted; defaulted_at = some now }

unfoldable pub default : ℕ → ℕ → Action Db ℕ
default now id = update_loan id (λ l. is_active_loan l.state) (defaulted_loan now)

unfoldable pub liquidate : ℕ → Action Db ℕ
liquidate id =
    update_loan id (λ l. is_defaulted l.state) (λ l. record l { state = LoanStatus.liquidated })

unfoldable pub cancel : ℕ → Action Db ℕ
cancel id =
    update_loan id (λ l. is_requested l.state) (λ l. record l { state = LoanStatus.cancelled })

abbrev pub is_overdue : ℕ → AgentLoan → Bool
is_overdue now l = is_active_loan l.state && leb l.expires_at now

-- The keys of the rows that the query of `get_overdue_active_loans` finds.
abbrev pub get_overdue_active_loans : ℕ → Table AgentLoan → List ℕ
get_overdue_active_loans now = keys_where (is_overdue now)

-- The arguments of `create_offer`.
pub record OfferTerms : Type 0 where
  pub lender_id : ℕ
  pub max_amount : ℤ
  pub interest_rate_bps : ℕ
  pub max_duration_secs : ℕ
  pub currency : ℕ
  pub min_borrower_credit_score : ℤ
  pub require_collateral : Bool
  pub collateral_ratio_pct : ℕ

abbrev pub new_offer : ℕ → OfferTerms → LendingOffer
new_offer expires_at t = record {
  lender_id = t.lender_id;
  max_amount = t.max_amount;
  currency = t.currency;
  interest_rate_bps = t.interest_rate_bps;
  max_duration_secs = t.max_duration_secs;
  min_borrower_credit_score = t.min_borrower_credit_score;
  require_collateral = t.require_collateral;
  collateral_ratio_pct = t.collateral_ratio_pct;
  is_active = true;
  remaining_amount = t.max_amount;
  expires_at = expires_at;
}

unfoldable pub create_offer : ℕ → ℕ → OfferTerms → Action Db LendingOffer
create_offer id expires_at t db =
    let offer = new_offer expires_at t in
    if is_some (find id db.offers)
    then (err integrity_error, db)
    else (ok offer, record db { offers = (id, offer) ∷ db.offers })

unfoldable pub deactivate_offer : ℕ → ℕ → Action Db ℕ
deactivate_offer id lender db =
    let (rows, offers) =
      update_where id (λ (o : LendingOffer). o.lender_id == lender && o.is_active)
        (λ o. record o { is_active = false }) db.offers in
    (ok rows, record db { offers = offers })

-- The filters of `list_active_offers`, with a smallest amount and a duration.
abbrev pub is_offered : ℕ → ℕ → ℤ → ℕ → LendingOffer → Bool
is_offered now currency min_amount duration o =
    o.is_active
    && o.currency == currency
    && ltb now o.expires_at
    && leb_ℤ min_amount o.remaining_amount
    && leb duration o.max_duration_secs

-- How the database orders rows of one rate, which the query leaves to it.
abbrev pub TieOrder : Type 0
TieOrder = LendingOffer → LendingOffer → Bool

-- The rows with `p`, sorted by rate.
unfoldable pub insert_by_rate : TieOrder → LendingOffer → List LendingOffer → List LendingOffer
insert_by_rate ties o [] = o ∷ []
insert_by_rate ties o (o' ∷ os) =
    let later = insert_by_rate ties o os in
    if ltb o.interest_rate_bps o'.interest_rate_bps
      || (o.interest_rate_bps == o'.interest_rate_bps && ties o o')
    then o ∷ o' ∷ os
    else o' ∷ later

unfoldable pub sorted_offers :
    TieOrder → (LendingOffer → Bool) → Table LendingOffer → List LendingOffer
unfolding insert_by_rate
sorted_offers ties p [] = []
sorted_offers ties p ((_, o) ∷ t) =
    let rest = sorted_offers ties p t in if p o then insert_by_rate ties o rest else rest

unfoldable pub limited : ℕ → List LendingOffer → List LendingOffer
limited n [] = []
limited n (o ∷ os) = if n == 0 then [] else o ∷ limited (n - 1) os

-- `list_active_offers` at its default limit of 50, which `_MAX_QUERY_LIMIT` does not lower.
unfoldable pub list_active_offers : TieOrder → ℕ → ℕ → ℤ → ℕ → Action Db (List LendingOffer)
unfolding sorted_offers limited
list_active_offers ties now currency min_amount duration = gets (λ (db : Db).
    limited 50 (sorted_offers ties (is_offered now currency min_amount duration) db.offers))
