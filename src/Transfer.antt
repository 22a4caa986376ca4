-- ===== src/Transfer.antt =====
-- Transfers between agents: the commission (sthrip/services/fee_calculator.py), the tier that it
-- goes by (sthrip/services/tier_cache.py), the monthly count (sthrip/services/agent_stats_service.py)
-- and the rows (sthrip/db/transaction_repo.py); payments to several agents
-- (sthrip/services/split_payment_service.py).
pub mod Commission
pub mod Tiers
pub mod Stats
pub mod Repo
pub mod Outcomes
pub mod Charges
pub mod Split
pub mod Shares
pub mod Paying
