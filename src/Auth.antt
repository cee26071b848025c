-- ===== src/Auth.antt =====
-- Who is logged in: backend_python/src/core/account_auth.py and core/admin_auth.py.
pub mod Login
pub mod Lockout
pub mod Bearer
pub mod Claims
mod Tests
