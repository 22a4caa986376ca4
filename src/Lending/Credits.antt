-- ===== src/Lending/Credits.antt =====
-- `CreditRepository` (sthrip/db/credit_repo.py).
use sthrip.Base.{
  ℕ, ◌+◌, ◌*◌, ◌/◌, suc, Option, none, some, ◌∷◌, true, ltb, ◌==◌, if◌then◌else◌, or_default,
}
use sthrip.Base.Int.{ℤ, pos, ◌+ℤ◌}
use sthrip.Base.Table.{Table, find, set, update_where}
use sthrip.Base.Action.{Action, ok, gets}
use sthrip.Models.Lending.{AgentCreditScore}
use sthrip.Models.Database.{Db}

-- `AgentCreditScore(agent_id=…)`
abbrev pub new_record : ℕ → AgentCreditScore
new_record now = record {
  credit_score = pos 0;
  total_loans_taken = 0;
  total_loans_repaid = 0;
  total_loans_defaulted = 0;
  total_borrowed_volume = pos 0;
  avg_repayment_time_secs = none;
  longest_default_secs = none;
  max_borrow_amount = pos 0;
  max_concurrent_loans = pos 0;
  calculated_at = some now;
}

abbrev pub with_record : ℕ → ℕ → Table AgentCreditScore → AgentCreditScore × Table AgentCreditScore
with_record now agent rows = elim (find agent rows) [
  | none ↦ (new_record now, (agent, new_record now) ∷ rows)
  | some r ↦ (r, rows)
]

unfoldable pub get_or_create : ℕ → ℕ → Action Db AgentCreditScore
get_or_create now agent db =
    let (r, rows) = with_record now agent db.credits in (ok r, record db { credits = rows })

abbrev pub get : ℕ → Action Db (Option AgentCreditScore)
get agent = gets (λ db. find agent db.credits)

unfoldable pub update_score : ℕ → ℕ → ℤ → ℤ → ℤ → Action Db ℕ
update_score now agent score max_borrow max_concurrent db =
    let (rows, credits) =
      update_where agent (λ (_ : AgentCreditScore). true)
        (λ r. record r {
          credit_score = score;
          max_borrow_amount = max_borrow;
          max_concurrent_loans = max_concurrent;
          calculated_at = some now;
        })
        db.credits in
    (ok rows, record db { credits = credits })

-- Writes `f` of the agent's record, new or old.
abbrev pub amend_record : ℕ → ℕ → (AgentCreditScore → AgentCreditScore) → Action Db (Unit {0})
amend_record now agent f db =
    let (r, rows) = with_record now agent db.credits in
    (ok tt, record db { credits = set agent (f r) rows })

abbrev pub with_loan : ℤ → AgentCreditScore → AgentCreditScore
with_loan principal r = record r {
  total_loans_taken = suc r.total_loans_taken;
  total_borrowed_volume = r.total_borrowed_volume +ℤ principal;
}

unfoldable pub record_loan_taken : ℕ → ℕ → ℤ → Action Db (Unit {0})
record_loan_taken now agent principal = amend_record now agent (with_loan principal)

-- The rolling average, cut to a whole number.
abbrev pub with_repayment : ℕ → AgentCreditScore → AgentCreditScore
with_repayment secs r =
    let count = r.total_loans_repaid in
    let average = or_default r.avg_repayment_time_secs 0 in
    record r {
      total_loans_repaid = suc count;
      avg_repayment_time_secs =
          some (if count == 0 then secs else (average * count + secs) / (count + 1));
    }

unfoldable pub record_loan_repaid : ℕ → ℕ → ℕ → Action Db (Unit {0})
record_loan_repaid now agent secs = amend_record now agent (with_repayment secs)

abbrev pub with_default : ℕ → AgentCreditScore → AgentCreditScore
with_default secs r = record r {
  total_loans_defaulted = suc r.total_loans_defaulted;
  longest_default_secs =
      if ltb (or_default r.longest_default_secs 0) secs then some secs else r.longest_default_secs;
}

unfoldable pub record_loan_defaulted : ℕ → ℕ → ℕ → Action Db (Unit {0})
record_loan_defaulted now agent secs = amend_record now agent (with_default secs)
