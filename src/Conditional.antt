-- ===== src/Conditional.antt =====
-- Conditional payments: the repository (sthrip/db/conditional_payment_repo.py) and the service
-- (sthrip/services/conditional_payment_service.py).
pub mod Repo
pub mod Service
pub mod Outcomes
pub mod Books
pub mod Evaluation
pub mod Tasks
