-- ===== src/Sightings/Structures.antt =====
-- backend_python/src/services/structure_sighting_service.py and repositories/ark_structure_repo.py.
pub mod Message
pub mod Rows
pub mod Handling
pub mod Store
pub mod Steps
pub mod Refinement
pub mod Poison
