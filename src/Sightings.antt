-- ===== src/Sightings.antt =====
-- What the relay reports through the streams of players, structures and dinos, and how it becomes
-- rows: backend_python/src/services/player_ingest_service.py, structure_sighting_service.py and
-- dino_sighting_service.py, on player_repo.py, ark_structure_repo.py and tamed_dino_repo.py.
pub mod Keys
pub mod Fields
pub mod Players
pub mod Structures
pub mod Dinos
pub mod Tests
