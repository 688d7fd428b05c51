-- ===== src/SamV71Core/Start.antt =====
-- `SamV71Core_Init` as a whole, and the functions of src/SamV71Core/SamV71Core.c that pass a call on. The
-- set-up of the two drivers, the memory protection unit's general configuration and the installation of
-- interrupts are an interface.
use taste_samv71_rtems_runti.Common.{ℕ, Bool, true, Option, some}
use taste_samv71_rtems_runti.Common.Options.{◌>>=◌}
use taste_samv71_rtems_runti.SamV71Core.Clock
use taste_samv71_rtems_runti.SamV71Core.Clock.{Target, Pmc, PckConfig}

-- `Mpu_Config`
pub record MpuConfig : Type 0 where
  pub is_enabled : Bool
  pub is_default_memory_map_enabled : Bool
  pub is_mpu_enabled_in_handlers : Bool

pub record Board : Type 1 where
  pub World : Type 0
  pub pmc_init : World → World
  pub mpu_init : World → World
  pub set_mpu_config : MpuConfig → World → World
  pub enable_peripheral_clk : ℕ → World → World
  pub set_pck_config : ℕ → PckConfig → ℕ → World → World × Bool
  pub interrupt_handler_install : ℕ → ℕ → ℕ → World → World
  pub interrupt_vector_enable : ℕ → World → World

abbrev pub mpu_conf : MpuConfig
mpu_conf = record {
  is_enabled = true;
  is_default_memory_map_enabled = true;
  is_mpu_enabled_in_handlers = true;
}

module _ (board : Board) where
  -- By RT_RTOS_NO_INIT, on the board, the clock's registers and `mck_frequency`
  unfoldable pub core_init :
      (pmc : Pmc)
      → Target
      → Bool
      → board.World × pmc.Registers × ℕ
      → Option (board.World × pmc.Registers × ℕ)
  core_init pmc target no_init (w, r, mck) = do
    let w₁ = board.set_mpu_config mpu_conf (board.mpu_init (board.pmc_init w))
    (r', mck') ← Clock.init pmc target no_init r mck
    some (w₁, r', mck')

  unfoldable pub enable_peripheral_clock : ℕ → board.World → board.World
  enable_peripheral_clock peripheral_id w = board.enable_peripheral_clk peripheral_id w

  unfoldable pub set_pck_config : ℕ → PckConfig → ℕ → board.World → board.World × Bool
  set_pck_config id config timeout w = board.set_pck_config id config timeout w

  -- A handler and its argument are addresses.
  unfoldable pub interrupt_subscribe : ℕ → ℕ → ℕ → board.World → board.World
  interrupt_subscribe vector handler handler_arg w =
      board.interrupt_vector_enable vector
        (board.interrupt_handler_install vector handler handler_arg w)
