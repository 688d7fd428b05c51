-- ===== src/Xdmac/Registers.antt =====
-- The registers of the DMA controller (src/Xdmac/component_xdmac.h) and the functions of
-- src/Xdmac/xdmac.c, each of which is one access or two. The controller itself is a device with reads
-- and writes; a read may change it. A failed assertion is `none`; the pointer to the controller, which
-- the driver always sets, is not NULL.
pub mod Layout
pub mod Device
pub mod Global
pub mod Channel
pub mod Config
pub mod Descriptor
mod Tests
use taste_samv71_rtems_runti.Common.{ℕ}

pub data GlobalRegister : Type 0 where
  gtype gcfg gwac gie gid gim gis ge gd gs grs gws grws grwr gswr gsws gswf : GlobalRegister

-- `XdmacChid`
pub data ChannelRegister : Type 0 where
  cie cid cim cis csa cda cnda cndc cubc cbc cc cds_msp csus cdus : ChannelRegister

-- `Xdmac`
pub data Register : Type 0 where
  global : GlobalRegister → Register
  chid : ℕ → ChannelRegister → Register
