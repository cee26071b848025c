-- ===== src/ApiKeys.antt =====
-- API keys of accounts: backend_python/src/services/api_key_service.py, with the repository and the
-- mirror of the tokens in Redis.
pub mod Cache
pub mod Service
pub mod Mirror
pub mod Isolation
pub mod Repeat
mod Tests
