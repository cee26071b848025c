-- ===== src/Sightings/Dinos.antt =====
-- backend_python/src/services/dino_sighting_service.py and repositories/tamed_dino_repo.py.
pub mod Message
pub mod Closest
pub mod Rows
pub mod Nearest
