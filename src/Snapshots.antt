-- ===== src/Snapshots.antt =====
-- The cache of structures from HTTP snapshots and its way into Postgres:
-- backend_python/src/services/redis_keys.py, structure_store.py and structure_flush.py, and
-- repositories/structure_repo.py.
pub mod Hashes
pub mod Keys
pub mod Store
pub mod Flush
pub mod Overlap
mod Tests
