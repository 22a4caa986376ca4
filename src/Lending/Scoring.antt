-- ===== src/Lending/Scoring.antt =====
-- The parts of a credit score: helpers of `calculate_credit_score`, and `max_borrow_amount`
-- (sthrip/services/credit_service.py).
use sthrip.Base.{ℕ, ◌+◌, ◌-◌, ◌*◌, ◌/◌, Option, none, some, leb, if◌then◌else◌}
use sthrip.Base.Int.{ℤ, pos, ◌+ℤ◌, ◌-ℤ◌, leb_ℤ, scale, neg_ℕ}
use sthrip.Models.Parties.{Agent, AgentReputation}
use sthrip.Models.Lending.{AgentCreditScore}

abbrev pub min_ℤ : ℤ → ℤ → ℤ
min_ℤ a b = if leb_ℤ a b then a else b

abbrev pub max_ℤ : ℤ → ℤ → ℤ
max_ℤ a b = if leb_ℤ a b then b else a

-- 10^16 units are one coin.
abbrev coin : ℕ
coin = 10000000000000000

-- `.days` of the time from `created` to `now`, which is negative where `created` is later.
abbrev pub days_between : ℕ → ℕ → ℤ
days_between created now =
    if leb created now
    then pos ((now - created) / 86400)
    else neg_ℕ ((created - now + 86399) / 86400)

abbrev pub days_old : ℕ → Agent → ℤ
days_old now agent = elim agent.created_at [
  | none ↦ pos 0
  | some created ↦ days_between created now
]

abbrev pub rep_factor : Option AgentReputation → ℤ
rep_factor rep =
    let trust_score : ℤ = elim rep [ none ↦ pos 0 | some r ↦ r.trust_score ] in
    min_ℤ (pos 300) (scale trust_score 3 1)

abbrev pub loan_factor : AgentCreditScore → ℤ
loan_factor r =
    max_ℤ (pos 0)
      (min_ℤ (pos 300) (pos (r.total_loans_repaid * 50) -ℤ pos (r.total_loans_defaulted * 100)))

abbrev pub total_tx : Option AgentReputation → ℕ
total_tx rep = elim rep [ none ↦ 0 | some r ↦ r.total_transactions ]

-- `int(days_old * 0.5 + total_tx * 0.1)`, in tenths.
abbrev pub activity_factor : ℕ → Agent → Option AgentReputation → ℤ
activity_factor now agent rep =
    min_ℤ (pos 200) (scale (scale (days_old now agent) 5 1 +ℤ pos (total_tx rep)) 1 10)

unfoldable pub max_borrow_amount : ℤ → ℤ → ℤ
max_borrow_amount credit_score collateral = scale credit_score coin 200 +ℤ scale collateral 8 10
