-- ===== src/Transfer/Commission.antt =====
-- The commission on a transfer (sthrip/services/fee_calculator.py), in piconero. The decimal
-- arithmetic there keeps 28 digits, so it is exact for amounts below 10^24.
use sthrip.Base.{ℕ, ◌+◌, ◌*◌, ◌/◌, ◌≤◌, ◌<◌, ◌≡◌, ◌⊎◌, ltb, if◌then◌else◌, arith}
use sthrip.Base.Int.{ℤ, pos, negsuc}
use sthrip.Base.Action.{Result, ok, err, value_error}
use sthrip.Models.Parties.{AgentTier}

abbrev pub rate_bps_for_tier : AgentTier → ℕ
rate_bps_for_tier AgentTier.free = 30
rate_bps_for_tier AgentTier.verified = 10
rate_bps_for_tier AgentTier.premium = 10
rate_bps_for_tier AgentTier.enterprise = 10

-- The quotient by 10,000, rounded to a whole number with halves up.
abbrev half_up : ℕ → ℕ
half_up x = (x + 5000) / 10000

-- The fee on an amount that is not negative.
unfoldable pub fee_for : ℕ → AgentTier → ℕ
fee_for amount tier =
    let fee = half_up (amount * rate_bps_for_tier tier) in if ltb fee 1 then 1 else fee

unfoldable pub compute_fee : ℤ → AgentTier → Result ℕ
unfolding fee_for
compute_fee (pos amount) tier = ok (fee_for amount tier)
compute_fee (negsuc _) tier = err value_error

-- The fee on an amount is at least one piconero, and is no more than the amount unless that is zero.
-- Unless it is that least fee, it is the rate's share of the amount to the nearest piconero, halves
-- up. A larger amount has no smaller fee, and a free account pays no less than another.
pub fee_for_bounds :
    (amount more : ℕ) (tier : AgentTier)
    → amount ≤ more
    → let exact = amount * rate_bps_for_tier tier in
      let fee = fee_for amount tier in
      (1 ≤ fee)
      × ((amount ≡ 0) ⊎ (fee ≤ amount))
      × (((fee ≡ 1) × (exact < 15000))
          ⊎ ((10000 * fee ≤ exact + 5000) × (exact + 5000 < 10000 * fee + 10000)))
      × (fee ≤ fee_for more tier)
      × (fee ≤ fee_for amount AgentTier.free)
unfolding fee_for
fee_for_bounds amount more AgentTier.free h =
    (ground arith, ground arith, ground arith, ground arith, ground arith)
fee_for_bounds amount more AgentTier.verified h =
    (ground arith, ground arith, ground arith, ground arith, ground arith)
fee_for_bounds amount more AgentTier.premium h =
    (ground arith, ground arith, ground arith, ground arith, ground arith)
fee_for_bounds amount more AgentTier.enterprise h =
    (ground arith, ground arith, ground arith, ground arith, ground arith)
