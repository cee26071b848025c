-- ===== src/Stream.antt =====
-- The reading of Redis streams by a consumer group: backend_python/src/core/redis_stream.py.
pub mod Consumer
pub mod Delivery
pub mod Progress
mod Tests
