-- ===== src/Hal.antt =====
-- src/Hal: the time base, the semaphores and the watchdog.
pub mod Time
pub mod Semaphores
pub mod Watchdog
pub mod Init
