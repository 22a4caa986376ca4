-- ===== src/Recurring.antt =====
-- Recurring payments: the repository (sthrip/db/recurring_repo.py) and the service
-- (sthrip/services/recurring_service.py).
pub mod Repo
pub mod Service
pub mod Commit
pub mod Charges
