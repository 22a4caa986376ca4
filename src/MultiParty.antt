-- ===== src/MultiParty.antt =====
-- Group payments: the repository (sthrip/db/multi_party_repo.py) and the service
-- (sthrip/services/multi_party_service.py).
pub mod Repo
pub mod Service
pub mod Outcomes
pub mod Answers
pub mod Books
pub mod Calls
pub mod Expiry
