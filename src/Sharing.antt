-- ===== src/Sharing.antt =====
-- Sharing groups: backend_python/src/services/sharing_service.py over repositories/sharing_repo.py,
-- and the mirror of the membership in Redis, core/group_cache.py.
pub mod Repo
pub mod Cache
pub mod Service
pub mod View
pub mod Mirror
pub mod Validity
pub mod Requests
pub mod Access
mod Tests
pub mod Invites
