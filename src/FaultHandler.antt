-- ===== src/FaultHandler.antt =====
-- src/FaultHandler: the death report with its checksum, the entry of the fault handler, its C part and
-- the exception vectors.
pub mod Crc
pub mod Report
pub mod Entry
pub mod Tail
pub mod Vectors
