-- ===== src/Xdmac/Driver/Setup.antt =====
-- `XDMAD_Initialize`, `XDMAD_SetCallback` and `XDMAD_PrepareChannel`.
pub mod Initialized
pub mod Prepared
mod Tests
use taste_samv71_rtems_runti.Common.{
  ℕ, zero, suc, ◌+◌, Bool, true, Option, none, some, List, if◌then◌else◌, leb, modify, bit_and, u8,
}
use taste_samv71_rtems_runti.Common.Options.{◌>>=◌}
use taste_samv71_rtems_runti.Rtems.{Rtems, is_successful}
use taste_samv71_rtems_runti.Xdmac.Registers.Device.{Device}
use taste_samv71_rtems_runti.Xdmac.Registers.Global.{get_type, disable_git, disable_channel}
use taste_samv71_rtems_runti.Xdmac.Registers.Channel.{
  get_channel_isr, disable_channel_it, set_source_addr, set_destination_addr, set_block_control,
  set_channel_config, set_descriptor_addr, set_descriptor_control,
}
use taste_samv71_rtems_runti.Xdmac.Channels.{
  State, free, allocated, start, in_xfr, done, halted, ReturnCode, ok, busy, error, Channel, blank,
  Xdmad,
}
use taste_samv71_rtems_runti.Xdmac.Driver.{Board, Node, state_of}

-- The loop of `XDMAD_Initialize` from channel j on; every field is set.
unfoldable pub reset_channels : ℕ → ℕ → List Channel → List Channel
reset_channels j zero channels = channels
reset_channels j (suc left) channels = reset_channels (j + 1) left (modify channels j (λ c. blank))

module _ (dev : Device) where
  -- On the instance, the static variable `xDmad_Initialized`, the controller and RTEMS.
  unfoldable pub initialize :
      (os : Rtems)
      → ℕ
      → ℕ
      → Xdmad × Bool × dev.State × os.World
      → Option (Xdmad × Bool × dev.State × os.World)
  unfolding reset_channels
  initialize os xdmad_lock polling (x, initialized, s, w) =
      let (status, w₁) = os.semaphore_obtain xdmad_lock w in
      let w₂ = (os.semaphore_release xdmad_lock w₁).1 in
      let (type, s₁) = get_type dev s in
      let n = u8 (bit_and 0x1f type + 1) in
      if is_successful status
      then if initialized
        then some (x, true, s, w₂)
        else some (
          record {
            channels = reset_channels 0 n x.channels;
            num_controllers = 1;
            num_channels = n;
            polling_mode = polling;
          },
          true,
          s₁,
          w₂,
        )
      else none

-- The answer of an operation that a channel in this state refuses
abbrev pub refuse_callback : State → Option ReturnCode
refuse_callback free = some error
refuse_callback start = some busy
refuse_callback allocated = none
refuse_callback in_xfr = none
refuse_callback done = none
refuse_callback halted = none

unfoldable pub set_callback : ℕ → ℕ → ℕ → Xdmad → Xdmad × ReturnCode
set_callback channel callback arg x =
    let i = u8 channel in
    if leb x.num_channels i then (x, error) else elim (refuse_callback (state_of x i)) [
      | some code ↦ (x, code)
      | none ↦ (
        record x {
          channels = modify x.channels i (λ c. record c { callback = callback; arg = arg });
        },
        ok,
      )
    ]

abbrev pub refuse_prepare : State → Option ReturnCode
refuse_prepare free = some error
refuse_prepare start = some busy
refuse_prepare in_xfr = some busy
refuse_prepare allocated = none
refuse_prepare done = none
refuse_prepare halted = none

module _ (dev : Device) (board : Board) where
  -- The accesses of `XDMAD_PrepareChannel`
  unfoldable pub prepare_registers : ℕ → dev.State → Option dev.State
  prepare_registers i s = do
    (status, s₁) ← get_channel_isr dev i s
    s₂ ← disable_channel_it dev i 0xff (disable_git dev i s₁)
    s₃ ← disable_channel dev i s₂
    s₄ ← set_source_addr dev i 0 s₃
    s₅ ← set_destination_addr dev i 0 s₄
    s₆ ← set_block_control dev i 0 s₅
    s₇ ← set_channel_config dev i 0x20 s₆
    s₈ ← set_descriptor_addr dev i 0 0 s₇
    set_descriptor_control dev i 0 s₈

  unfoldable pub prepare_channel : ℕ → Node dev board → Option (Node dev board × ReturnCode)
  unfolding prepare_registers
  prepare_channel channel n =
      let i = u8 channel in
      let w =
        if board.is_peripheral_clk_enabled n.world
        then n.world
        else board.enable_peripheral_clk n.world in
      if leb n.xdmad.num_channels i
      then some (n, error)
      else elim (refuse_prepare (state_of n.xdmad i)) [
        | some code ↦ some (n, code)
        | none ↦
            (prepare_registers i n.device >>= λ s. some (record n { device = s; world = w }, ok))
      ]
