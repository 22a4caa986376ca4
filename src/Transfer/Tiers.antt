-- ===== src/Transfer/Tiers.antt =====
-- `get_tier` (sthrip/services/tier_cache.py): an agent's tier, remembered for the length of a request.
use sthrip.Base.{ℕ, ◌≡◌, Option, none, some, ◌∷◌, arith, ==-refl}
use sthrip.Base.Table.{Table, find}
use sthrip.Models.Parties.{AgentTier}
use sthrip.Models.Database.{Db}

-- `_request_tier_cache`: `none` outside a request.
abbrev pub TierCache : Type 0
TierCache = Option (Table AgentTier)

-- The tier in the database; an agent that is not there counts as free.
abbrev pub tier_in : ℕ → Db → AgentTier
tier_in agent db = elim (find agent db.agents) [ none ↦ AgentTier.free | some a ↦ a.tier ]

abbrev pub cached : ℕ → TierCache → Option AgentTier
cached agent none = none
cached agent (some tiers) = find agent tiers

abbrev pub remember : ℕ → AgentTier → TierCache → TierCache
remember agent tier none = none
remember agent tier (some tiers) = some ((agent, tier) ∷ tiers)

-- The tier, and the cache after the call.
unfoldable pub get_tier : TierCache → ℕ → Db → AgentTier × TierCache
get_tier cache agent db = elim (cached agent cache) [
  | some tier ↦ (tier, cache)
  | none ↦ (tier_in agent db, remember agent (tier_in agent db) cache)
]

-- Within a request, an agent's tier does not change: whatever becomes of the database in between, a
-- second reading gives the first one's tier.
pub get_tier-stable :
    {cache : TierCache} (agent : ℕ) (db db' : Db) (cached_tiers : Table AgentTier)
    → cache ≡ some cached_tiers
    → (get_tier (get_tier cache agent db).1 agent db').0 ≡ (get_tier cache agent db).0
unfolding get_tier find
get_tier-stable agent db db' tiers e = ground (arith, ==-refl agent)
