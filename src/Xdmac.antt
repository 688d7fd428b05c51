-- ===== src/Xdmac.antt =====
-- src/Xdmac: the driver of the DMA controller. The table of peripherals, the registers, the channels
-- and the operations on them.
pub mod Table
pub mod Registers
pub mod Channels
pub mod Driver
mod Samples
