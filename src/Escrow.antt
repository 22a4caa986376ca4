-- ===== src/Escrow.antt =====
-- Hub-held escrow: the repositories (sthrip/db/escrow_repo.py, sthrip/db/milestone_repo.py) and the
-- service (sthrip/services/escrow_service.py).
pub mod Repo
pub mod MilestoneRepo
pub mod Trust
pub mod Deals
pub mod Milestones
pub mod Expiry
pub mod Outcomes
pub mod WellFormed
pub mod Conservation
pub mod Reform
pub mod Preservation
pub mod Creation
pub mod MilestoneExpiry
pub mod MilestoneBooks
pub mod AutoRelease
pub mod TrustRange
pub mod Sweep
pub mod SweepForm
pub mod Progress
pub mod MilestoneOutcomes
pub mod Resolution
pub mod History
pub mod Machine
pub mod Lifecycle
