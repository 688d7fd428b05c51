-- ===== src/Monitor.antt =====
-- src/Monitor: the activation log, the idle CPU usage, the stack usage and the queue statistics.
pub mod Log
pub mod Queues
pub mod Stack
pub mod Cpu
