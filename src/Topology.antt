-- ===== src/Topology.antt =====
-- The servers, the tribes and the classes that observations refer to:
-- backend_python/src/repositories/server_repo.py and ark_lookups_repo.py, in a database session.
pub mod Text
pub mod Session
pub mod Servers
pub mod Tribes
pub mod Lookups
pub mod Clash
pub mod Numbers
pub mod Unshared
mod Tests
