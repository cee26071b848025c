-- ===== src/Accounts.antt =====
-- Accounts and the keys that make them: backend_python/src/services/account_service.py,
-- activation_key_service.py and password_reset_service.py, with their repositories.
pub mod Repo
pub mod Register
pub mod Activation
pub mod Reset
mod Tests
