-- ===== src/Xdmac/Driver/Transfer.antt =====
-- `XDMAD_ConfigureTransfer`, `XDMAD_StartTransfer` and `XDMAD_StopTransfer`.
pub mod Configured
pub mod Linked
pub mod Views
pub mod Stopped
mod Tests
use taste_samv71_rtems_runti.Common.{
  ℕ, ◌+◌, Bool, true, false, not, Option, none, some, if◌then◌else◌, leb, ◌==◌, bit_and, u8, u16,
}
use taste_samv71_rtems_runti.Common.Options.{◌>>=◌}
use taste_samv71_rtems_runti.Xdmac.Registers.Device.{Device}
use taste_samv71_rtems_runti.Xdmac.Registers.Global.{
  enable_git, enable_channel, disable_channel, get_global_ch_status,
}
use taste_samv71_rtems_runti.Xdmac.Registers.Channel.{
  get_channel_isr, enable_channel_it, disable_channel_it, set_source_addr, set_destination_addr,
  set_microblock_control, set_block_control, set_channel_config, set_data_stride_mem_pattern,
  set_source_micro_block_stride, set_destination_micro_block_stride, set_descriptor_addr,
  set_descriptor_control,
}
use taste_samv71_rtems_runti.Xdmac.Channels.{
  State, free, allocated, start, in_xfr, done, halted, ReturnCode, ok, busy, error, Xdmad,
}
use taste_samv71_rtems_runti.Xdmac.Driver.{Board, Node, state_of, set_state}

-- `sXdmadCfg`
pub record Cfg : Type 0 where
  pub mbr_ubc : ℕ
  pub mbr_sa : ℕ
  pub mbr_da : ℕ
  pub mbr_cfg : ℕ
  pub mbr_bc : ℕ
  pub mbr_ds : ℕ
  pub mbr_sus : ℕ
  pub mbr_dus : ℕ

-- `XDMAC_CNDC_NDE` and `XDMAC_CNDC_NDVIEW_Msk`; view 0 is 0 and view 1 is 8.
abbrev pub cndc_nde : ℕ
cndc_nde = 1

abbrev pub cndc_ndview_msk : ℕ
cndc_ndview_msk = 24

-- The answer of an operation that a channel in this state refuses
abbrev pub refuse : State → Option ReturnCode
refuse free = some error
refuse start = some busy
refuse allocated = none
refuse in_xfr = none
refuse done = none
refuse halted = none

module _ (dev : Device) where
  -- The registers that a linked list's first view needs, by its kind
  unfoldable pub load_view : ℕ → Cfg → ℕ → dev.State → Option dev.State
  load_view i cfg view s =
      let first = set_channel_config dev i cfg.mbr_cfg s >>= λ s₁.
      set_source_addr dev i cfg.mbr_sa s₁ >>= λ s₂. set_destination_addr dev i cfg.mbr_da s₂ in
      if view == 0
      then first
      else if view == 8
      then set_channel_config dev i cfg.mbr_cfg s
      else some s

  unfoldable pub configure_list : ℕ → Cfg → ℕ → ℕ → ℕ → dev.State → Option dev.State
  unfolding load_view
  configure_list i cfg desc_cfg desc_addr int_en s = do
    s₁ ← load_view i cfg (bit_and desc_cfg cndc_ndview_msk) s
    s₂ ← set_descriptor_addr dev i desc_addr 0 s₁
    s₃ ← set_descriptor_control dev i desc_cfg s₂
    s₄ ← disable_channel_it dev i 0xff s₃
    enable_channel_it dev i int_en s₄

  unfoldable pub configure_single : ℕ → Cfg → ℕ → dev.State → Option dev.State
  configure_single i cfg int_en s = do
    s₁ ← set_source_addr dev i cfg.mbr_sa s
    s₂ ← set_destination_addr dev i cfg.mbr_da s₁
    s₃ ← set_microblock_control dev i cfg.mbr_ubc s₂
    s₄ ← set_block_control dev i cfg.mbr_bc s₃
    s₅ ← set_data_stride_mem_pattern dev i cfg.mbr_ds s₄
    s₆ ← set_source_micro_block_stride dev i cfg.mbr_sus s₅
    s₇ ← set_destination_micro_block_stride dev i cfg.mbr_dus s₆
    s₈ ← set_channel_config dev i cfg.mbr_cfg s₇
    s₉ ← set_descriptor_addr dev i 0 0 s₈
    s₁₀ ← set_descriptor_control dev i 0 s₉
    enable_channel_it dev i int_en s₁₀

  unfoldable pub configure_registers : ℕ → Cfg → ℕ → ℕ → ℕ → dev.State → Option dev.State
  unfolding configure_list configure_single
  configure_registers i cfg desc_cfg desc_addr int_en s =
      if bit_and desc_cfg cndc_nde == cndc_nde
      then configure_list i cfg desc_cfg desc_addr int_en s
      else configure_single i cfg int_en s

module _ (dev : Device) (board : Board) where
  -- The pending status is cleared by a read before the channel's state is looked at.
  unfoldable pub configure_transfer :
      ℕ → Cfg → ℕ → ℕ → ℕ → Node dev board → Option (Node dev board × ReturnCode)
  unfolding configure_registers
  configure_transfer channel cfg desc_cfg desc_addr int_en n =
      let i = u8 channel in
      if leb n.xdmad.num_channels i then some (n, error) else do
        (status, s₁) ← get_channel_isr dev i n.device
        elim (refuse (state_of n.xdmad i)) [
          | some code ↦ some (record n { device = s₁ }, code)
          | none ↦ do
            s₂ ← configure_registers dev i cfg desc_cfg desc_addr int_en s₁
            some (record n { device = s₂ }, ok)
        ]

  unfoldable pub start_transfer : ℕ → Node dev board → Option (Node dev board × ReturnCode)
  start_transfer channel n =
      let i = u8 channel in
      if leb n.xdmad.num_channels i then some (n, error) else elim (refuse (state_of n.xdmad i)) [
        | some code ↦ some (n, code)
        | none ↦ do
          s₁ ← enable_channel dev i n.device
          some (
            record n {
              xdmad = set_state i start n.xdmad;
              device = if n.xdmad.polling_mode == 0 then enable_git dev i s₁ else s₁;
            },
            ok,
          )
      ]

  -- The state of the channel is not looked at.
  unfoldable pub stop_transfer : ℕ → Node dev board → Option (Node dev board × ReturnCode)
  stop_transfer channel n =
      let i = u8 channel in
      if leb n.xdmad.num_channels i then some (n, error) else do
        s₁ ← disable_channel dev i n.device
        s₂ ← disable_channel_it dev i 0xff s₁
        (status, s₃) ← get_channel_isr dev i s₂
        some (
          record n { xdmad = set_state i halted n.xdmad; device = (get_global_ch_status dev s₃).1 },
          ok,
        )
