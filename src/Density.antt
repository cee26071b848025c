-- ===== src/Density.antt =====
-- The heat map of tamed dinos: backend_python/src/services/dino_density_service.py and
-- repositories/dino_density_repo.py.
pub mod Rooms
pub mod Counting
pub mod Cells
pub mod Sampling
pub mod Samples
pub mod Peaks
pub mod Places
pub mod Keys
mod Tests
