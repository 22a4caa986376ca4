-- ===== src/Lending.antt =====
-- Credit scores, lending offers and loans: the repositories (sthrip/db/loan_repo.py and
-- sthrip/db/credit_repo.py) and the service (sthrip/services/credit_service.py).
pub mod Loans
pub mod Credits
pub mod Scoring
pub mod Service
pub mod Outcomes
pub mod Defaults
pub mod Scores
pub mod Offers
pub mod Requests
