-- ===== src/Models.antt =====
-- The tables of the database (sthrip/db/models.py, sthrip/db/enums.py) and the session on them.
pub mod Parties
pub mod Milestone
pub mod Escrow
pub mod Channel
pub mod Lending
pub mod Payments
pub mod Transfers
pub mod Agreements
pub mod Swaps
pub mod Database
