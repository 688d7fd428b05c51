-- ===== src/SamV71Core.antt =====
-- src/SamV71Core: the clock tree and the memory regions without data cache.
pub mod Clock
pub mod Cache
pub mod Start
mod Tests
