-- ===== src/Lending/Scores.antt =====
-- Credit scores.
use sthrip.Base.{
  ℕ, ◌∷◌, ◌≡◌, ◌*◌, ◌≤◌, none, some, Option, inl, inr, arith, Option-cases, Bool-cases, refl,
}
use sthrip.Base.Int.{ℤ, pos, negsuc, ◌+ℤ◌, ◌-ℤ◌, ◌≤ℤ◌, leb_ℤ, scale, int_laws, eq_of_parts}
use sthrip.Base.Table.{find, set, Table}
use sthrip.Base.Action.{ok, err, lookup_error}
use sthrip.Models.Parties.{audit, Agent, AgentReputation, xmr}
use sthrip.Models.Lending.{AgentCreditScore}
use sthrip.Models.Database.{Db}
use sthrip.Ledger.Rows.{get_for_update}
use sthrip.Ledger.Balance.{available_of}
use sthrip.Lending.Credits.{with_record}
use sthrip.Lending.Scoring.{
  max_borrow_amount, max_ℤ, min_ℤ, rep_factor, loan_factor, activity_factor, days_old, total_tx,
}
use sthrip.Lending.Service.{score_of, calculate_credit_score}

abbrev pub rescored : ℕ → ℤ → AgentCreditScore → AgentCreditScore
rescored now score r = record r {
  credit_score = score;
  max_borrow_amount = max_borrow_amount score (pos 0);
  max_concurrent_loans = max_ℤ (pos 1) (scale score 1 200);
  calculated_at = some now;
}

abbrev pub scored_state : ℕ → ℕ → ℤ → Db → Db
scored_state now id score db =
    let (r, rows) = with_record now id db.credits in
    record db {
      balances = (get_for_update now id xmr db.balances).1;
      credits = set id (rescored now score r) rows;
      own_audits = audit "credit.score_calculated" (some id) none ∷ db.own_audits;
    }

find-with_record :
    (now id : ℕ) (rows : Table AgentCreditScore)
    → let (r, rows') = with_record now id rows in find id rows' ≡ some r
unfolding find
find-with_record now id rows = ground arith

module _ (points : ℤ → ℤ) where
  -- The score of an agent, from what the database has of it.
  abbrev pub score_in : ℕ → ℕ → Agent → Db → ℤ
  score_in now id agent db =
      score_of points now agent (find id db.reputations) (with_record now id db.credits).0
        (available_of id xmr db)

  pub calculate-known :
      (now id : ℕ) (agent : Agent) (db : Db)
      → find id db.agents ≡ some agent
      → let score = score_in now id agent db in
        calculate_credit_score points now id db ≡ (ok score, scored_state now id score db)
  unfolding calculate_credit_score available_of get_for_update
  calculate-known now id agent db e = ground (arith, find-with_record now id db.credits)

  -- An agent that is not there is not scored.
  pub calculate-unknown :
      (now id : ℕ) (db : Db)
      → find id db.agents ≡ none
      → calculate_credit_score points now id db ≡ (err lookup_error, db)
  unfolding calculate_credit_score
  calculate-unknown now id db e = rw e refl

abbrev pub Nonneg : ℤ → Type 0
Nonneg x = pos 0 ≤ℤ x

abbrev pub Within : ℕ → ℤ → Type 0
Within limit x = Nonneg x × (x ≤ℤ pos limit)

scale-Nonneg : (x : ℤ) (n d : ℕ) → Nonneg x → Nonneg (scale x n d)
unfolding scale
scale-Nonneg (pos x) n d h = ground arith
scale-Nonneg (negsuc x) n d h = ground arith

add-Nonneg : (x y : ℤ) → Nonneg x → Nonneg y → Nonneg (x +ℤ y)
add-Nonneg x y h k = omega int_laws

min-Nonneg : (x y : ℤ) → Nonneg x → Nonneg y → Nonneg (min_ℤ x y)
min-Nonneg x y h k = elim (Bool-cases (leb_ℤ x y)) [ inl e ↦ rw e h | inr e ↦ rw e k ]

max-Nonneg : (y : ℤ) → Nonneg (max_ℤ (pos 0) y)
max-Nonneg y = ground arith

min-bound : (x y : ℤ) → min_ℤ x y ≤ℤ x
min-bound x y = ground arith

min-above : (x y : ℤ) → y ≤ℤ x → min_ℤ x y ≡ y
min-above x y h = elim (Bool-cases (leb_ℤ x y)) [
  | inl e ↦ rw e (eq_of_parts x y (ground arith))
  | inr e ↦ rw e refl
]

abbrev loan_points : AgentCreditScore → ℤ
loan_points r =
    min_ℤ (pos 300) (pos (r.total_loans_repaid * 50) -ℤ pos (r.total_loans_defaulted * 100))

loan_factor-bound : (r : AgentCreditScore) → loan_factor r ≤ℤ pos 300
loan_factor-bound r =
    capped (loan_points r)
      (min-bound (pos 300) (pos (r.total_loans_repaid * 50) -ℤ pos (r.total_loans_defaulted * 100)))
  where
    capped : (x : ℤ) → x ≤ℤ pos 300 → max_ℤ (pos 0) x ≤ℤ pos 300
    capped x h = ground arith

rep_factor-bound : (rep : Option AgentReputation) → rep_factor rep ≤ℤ pos 300
rep_factor-bound none = min-bound (pos 300) (scale (pos 0) 3 1)
rep_factor-bound (some r) = min-bound (pos 300) (scale r.trust_score 3 1)

activity_factor-bound :
    (now : ℕ) (agent : Agent) (rep : Option AgentReputation)
    → activity_factor now agent rep ≤ℤ pos 200
activity_factor-bound now agent rep =
    min-bound (pos 200) (scale (scale (days_old now agent) 5 1 +ℤ pos (total_tx rep)) 1 10)

-- What scoring relies on: trust and age are not negative, nor the points of a balance.
abbrev pub IsScorable : (ℤ → ℤ) → ℕ → ℕ → Agent → Db → Type 0
IsScorable points now id agent db =
    ((r : AgentReputation) → find id db.reputations ≡ some r → Nonneg r.trust_score)
    × ((created : ℕ) → agent.created_at ≡ some created → created ≤ now)
    × Nonneg (points (available_of id xmr db))

rep_factor-Nonneg :
    (rep : Option AgentReputation)
    → ((r : AgentReputation) → rep ≡ some r → Nonneg r.trust_score)
    → Nonneg (rep_factor rep)
rep_factor-Nonneg none h =
    min-Nonneg (pos 300) (scale (pos 0) 3 1) (omega arith) (scale-Nonneg (pos 0) 3 1 (omega arith))
rep_factor-Nonneg (some r) h =
    min-Nonneg (pos 300) (scale r.trust_score 3 1) (omega arith)
      (scale-Nonneg r.trust_score 3 1 (h r refl))

days_old-Nonneg :
    (now : ℕ) (agent : Agent)
    → ((created : ℕ) → agent.created_at ≡ some created → created ≤ now)
    → Nonneg (days_old now agent)
days_old-Nonneg now agent h = elim (Option-cases agent.created_at) [
  | inl e ↦ rw e (omega arith)
  | inr (created, e) ↦ let earlier = h created e in rw e (ground arith)
]

activity_factor-Nonneg :
    (now : ℕ) (agent : Agent) (rep : Option AgentReputation)
    → Nonneg (days_old now agent)
    → Nonneg (activity_factor now agent rep)
activity_factor-Nonneg now agent rep h =
    let days = scale (days_old now agent) 5 1 in
    let all_tenths = days +ℤ pos (total_tx rep) in
    min-Nonneg (pos 200) (scale all_tenths 1 10) (omega arith) (
      scale-Nonneg all_tenths 1 10 (
        add-Nonneg days (pos (total_tx rep)) (scale-Nonneg (days_old now agent) 5 1 h)
          (omega arith)))

-- Scoring an agent whose trust and age are not negative, with a balance that is worth no negative
-- number of points, returns a score between 0 and 1000 that is the sum of its four factors: those of
-- trust and of loans between 0 and 300 each, those of activity and of the balance between 0 and 200.
pub calculate_credit_score-bounds :
    (points : ℤ → ℤ) (now id : ℕ) (agent : Agent) (db : Db)
    → find id db.agents ≡ some agent
    → IsScorable points now id agent db
    → (score : ℤ) × ((calculate_credit_score points now id db).0 ≡ ok score)
      × Nonneg score
      × (score ≤ℤ pos 1000)
      × (score
          ≡ rep_factor (find id db.reputations)
            +ℤ loan_factor (with_record now id db.credits).0
            +ℤ activity_factor now agent (find id db.reputations)
            +ℤ min_ℤ (pos 200) (points (available_of id xmr db)))
      × Within 300 (rep_factor (find id db.reputations))
      × Within 300 (loan_factor (with_record now id db.credits).0)
      × Within 200 (activity_factor now agent (find id db.reputations))
      × Within 200 (min_ℤ (pos 200) (points (available_of id xmr db)))
calculate_credit_score-bounds points now id agent db e (trust, age, worth) =
    let rep = find id db.reputations in
    let r : AgentCreditScore = (with_record now id db.credits).0 in
    let worth' = points (available_of id xmr db) in
    let balance = min_ℤ (pos 200) worth' in
    let activity = activity_factor now agent rep in
    let total = rep_factor rep +ℤ loan_factor r +ℤ activity +ℤ balance in
    let rep_low = rep_factor-Nonneg rep trust in
    let activity_low = activity_factor-Nonneg now agent rep (days_old-Nonneg now agent age) in
    let balance_low = min-Nonneg (pos 200) worth' (omega arith) worth in
    let loan_low = max-Nonneg (loan_points r) in
    let low : Nonneg total = omega int_laws in
    let high : total ≤ℤ pos 1000 = omega (
      int_laws,
      rep_factor-bound rep,
      loan_factor-bound r,
      activity_factor-bound now agent rep,
      min-bound (pos 200) worth',
    ) in
    let unclipped = min-above (pos 1000) total high in
    (
      total,
      rw (calculate-known points now id agent db e, unclipped) refl,
      low,
      high,
      refl,
      (rep_low, rep_factor-bound rep),
      (loan_low, loan_factor-bound r),
      (activity_low, activity_factor-bound now agent rep),
      (balance_low, min-bound (pos 200) worth'),
    )
