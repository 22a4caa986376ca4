-- ===== src/Channel.antt =====
-- Payment channels: the repository (sthrip/db/channel_repo.py) and the service
-- (sthrip/services/channel_service.py).
pub mod Repo
pub mod Service
pub mod Commit
pub mod Updates
pub mod Closing
