-- ===== src/Sla.antt =====
-- Service level agreements: the repositories (sthrip/db/sla_repo.py) and the service
-- (sthrip/services/sla_service.py).
pub mod Repo
pub mod Service
pub mod Outcomes
pub mod Lifecycle
pub mod Creation
pub mod Unpaid
pub mod Enforcement
