-- ===== src/Xdmac/Driver.antt =====
-- The operations of src/Xdmac/xdmad.c that touch the controller. `none` is a failed assertion. The
-- clock and cache drivers of the board support package are an interface.
pub mod Setup
pub mod Transfer
pub mod Handler
pub mod Edges
pub mod Cycle
mod Tests
use taste_samv71_rtems_runti.Common.{
  ℕ, zero, suc, ◌+◌, Bool, true, false, List, [], ◌∷◌, if◌then◌else◌, modify, get_or, leb, u8,
}
use taste_samv71_rtems_runti.Xdmac.Registers.Device.{Device}
use taste_samv71_rtems_runti.Xdmac.Channels.{State, Channel, blank, Xdmad}

pub record Board : Type 1 where
  pub World : Type 0
  pub is_peripheral_clk_enabled : World → Bool
  pub enable_peripheral_clk : World → World
  pub disable_dcache : World → World

module _ (dev : Device) (board : Board) where
  -- The driver's instance, the controller and the rest of the system
  pub record Node : Type 0 where
    pub xdmad : Xdmad
    pub device : dev.State
    pub world : board.World

-- The state of a channel, and an assignment to it
abbrev pub state_of : Xdmad → ℕ → State
state_of x i = (get_or x.channels i blank).state

abbrev pub set_state : ℕ → State → Xdmad → Xdmad
set_state i s x = record x { channels = modify x.channels i (λ c. record c { state = s }) }
