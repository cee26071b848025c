-- ===== src/Routes.antt =====
-- The HTTP routes of backend_python/src/routers/v1 that stand on the services modelled. A request has
-- passed the validation of its schema; a response is the value that the route returns.
pub mod Http
pub mod Groups
pub mod Accounts
pub mod ActivationKeys
pub mod ApiKeys
pub mod Logins
pub mod Listings
pub mod Access
pub mod Sessions
mod Tests
