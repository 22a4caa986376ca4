-- ===== src/Escrow/Trust.antt =====
-- The escrow fee and the trust scores: `_compute_fee_percent`, `_adjust_trust` and
-- `_apply_completion_trust` of sthrip/services/escrow_service.py.
use sthrip.Base.{ℕ, ◌≤◌, ◌*◌, ◌/◌, arith, some, if◌then◌else◌, ◌==◌, true}
use sthrip.Base.Int.{ℤ, ◌≤ℤ◌, pos, negsuc, ◌+ℤ◌, ltb_ℤ, leb_ℤ, ◌==ℤ◌, scale}
use sthrip.Base.Table.{Table, update_where}
use sthrip.Base.Action.{Action, modify}
use sthrip.Models.Parties.{AgentReputation}
use sthrip.Models.Database.{Db}

-- `_DEFAULT_FEE_PERCENT`, 0.01 in ten-thousandths; `_compute_fee_percent` is this for every tier.
abbrev pub default_fee_percent : ℕ
default_fee_percent = 100

-- `fee_percent if deal.fee_percent else _DEFAULT_FEE_PERCENT`
abbrev pub rate_of : ℕ → ℕ
rate_of fee_percent = if fee_percent == 0 then default_fee_percent else fee_percent

-- `amount * fee_percent`
abbrev pub fee_of : ℤ → ℕ → ℤ
fee_of amount fee_percent = scale amount (rate_of fee_percent) 10000

-- The CASE expression of `_adjust_trust`.
unfoldable pub clamp : ℤ → ℤ
clamp x = if ltb_ℤ x (pos 0) then pos 0 else if ltb_ℤ (pos 100) x then pos 100 else x

abbrev pub rescored : ℕ → ℤ → AgentReputation → AgentReputation
rescored now delta r = record r {
  trust_score = clamp (r.trust_score +ℤ delta);
  calculated_at = some now;
}

-- An agent with no row of `agent_reputation` has none written.
unfoldable pub adjusted : ℕ → ℕ → ℤ → Table AgentReputation → Table AgentReputation
adjusted now agent delta t =
    if delta ==ℤ pos 0 then t else (update_where agent (λ _. true) (rescored now delta) t).1

unfoldable pub adjust_trust : ℕ → ℕ → ℤ → Action Db (Unit {0})
adjust_trust now agent delta =
    modify (λ db. record db { reputations = adjusted now agent delta db.reputations })

-- Trust moves with the share of the deal that was released; the quotient is compared with a half.
unfoldable pub completion_trust : ℕ → ℕ → ℕ → ℤ → ℤ → Table AgentReputation → Table AgentReputation
completion_trust now buyer seller released amount t =
    if leb_ℤ amount (pos 0)
    then t
    else if released ==ℤ amount
    then adjusted now buyer (pos 1) (adjusted now seller (pos 1) t)
    else if released ==ℤ pos 0
    then adjusted now seller (negsuc 1) t
    else if ltb_ℤ amount (released +ℤ released)
    then adjusted now seller (pos 1) t
    else adjusted now seller (negsuc 0) t

unfoldable pub apply_completion_trust : ℕ → ℕ → ℕ → ℤ → ℤ → Action Db (Unit {0})
apply_completion_trust now buyer seller released amount = modify (λ db. record db {
  reputations = completion_trust now buyer seller released amount db.reputations;
})

rate_of-le : (n : ℕ) → n ≤ 10000 → rate_of n ≤ 10000
rate_of-le n h = ground arith

share-le : (x r : ℕ) → r ≤ 10000 → x * r / 10000 ≤ x
share-le x r h = let product : x * r ≤ x * 10000 = grind arith in omega arith

-- For an amount of zero or more and a rate of at most one, the fee is between zero and the amount.
pub fee_of_bounds :
    (amount : ℤ) (fee_percent : ℕ)
    → pos 0 ≤ℤ amount
    → fee_percent ≤ 10000
    → (pos 0 ≤ℤ fee_of amount fee_percent) × (fee_of amount fee_percent ≤ℤ amount)
unfolding scale
fee_of_bounds (pos x) n h k = omega (arith, share-le x (rate_of n) (rate_of-le n k))
fee_of_bounds (negsuc x) n h k = absurd (omega arith)
