-- ===== src/Stream.antt =====
-- Payment streams: the repository (sthrip/db/stream_repo.py) and the service
-- (sthrip/services/stream_service.py).
pub mod Repo
pub mod Service
pub mod Runs
