-- ===== src/Xdmac/Samples.antt =====
-- Values that the tests of the driver share: numbers of the peripherals, a board whose clock runs, and
-- the parameters of a transfer.
use taste_samv71_rtems_runti.Common.{ℕ, true}
use taste_samv71_rtems_runti.Xdmac.Table.{Peripheral, spi0}
use taste_samv71_rtems_runti.Xdmac.Driver.{Board}
use taste_samv71_rtems_runti.Xdmac.Driver.Transfer.{Cfg}

-- SPI0 is peripheral 21, all others are 7.
abbrev pub ids : Peripheral → ℕ
ids spi0 = 21
ids _ = 7

-- The state of the board is a counter.
abbrev pub board : Board
board = record {
  World = ℕ;
  is_peripheral_clk_enabled = λ w. true;
  enable_peripheral_clk = λ w. w;
  disable_dcache = λ w. w;
}

abbrev pub cfg : Cfg
cfg = record {
  mbr_ubc = 0x10;
  mbr_sa = 0x2040_0000;
  mbr_da = 0x4000_8000;
  mbr_cfg = 0x20;
  mbr_bc = 0;
  mbr_ds = 0;
  mbr_sus = 0;
  mbr_dus = 0;
}
