-- ===== src/Sightings/Tests.antt =====
-- Sightings of players, structures and dinos at concrete rows.
mod Rows
pub mod Worlds
mod Clash
