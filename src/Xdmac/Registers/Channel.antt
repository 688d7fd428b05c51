-- ===== src/Xdmac/Registers/Channel.antt =====
-- The functions of src/Xdmac/xdmac.c on the registers of one channel.
pub mod Flush
use taste_samv71_rtems_runti.Common.{
  ℕ, zero, suc, ◌+◌, ◌-◌, ◌*◌, ◌%◌, ◌^◌, Option, some, none, Bool, true, false, if◌then◌else◌, ltb,
  ◌==◌, bit_and, bit_or, u8, u16, u32,
}
use taste_samv71_rtems_runti.Common.Options.{◌>>=◌}
use taste_samv71_rtems_runti.Xdmac.Registers.{
  global, gswf, chid, ChannelRegister, cie, cid, cim, cis, csa, cda, cnda, cndc, cubc, cbc, cc,
  cds_msp, csus, cdus,
}
use taste_samv71_rtems_runti.Xdmac.Registers.Device.{Device}
use taste_samv71_rtems_runti.Xdmac.Registers.Global.{checked, channel_bit}

-- `XDMAC_CUBC_UBLEN`, `XDMAC_CSUS_SUBS` and `XDMAC_CDUS_DUBS`, and `XDMAC_CBC_BLEN`: a field at bit 0
abbrev pub field_24 : ℕ → ℕ
field_24 v = bit_and 0xff_ffff v

abbrev pub field_12 : ℕ → ℕ
field_12 v = bit_and 0xfff v

-- `XDMAC_CIS_FIS`
abbrev pub cis_fis : ℕ
cis_fis = 8

module _ (dev : Device) where
  abbrev get : ℕ → ChannelRegister → dev.State → Option (ℕ × dev.State)
  get channel r s = checked channel (dev.read (chid channel r) s)

  abbrev put : ℕ → ChannelRegister → ℕ → dev.State → Option dev.State
  put channel r v s = checked channel (dev.write (chid channel r) v s)

  -- The mask is a `uint8_t`.
  unfoldable pub enable_channel_it : ℕ → ℕ → dev.State → Option dev.State
  enable_channel_it channel mask s = put channel cie (u8 mask) s

  unfoldable pub disable_channel_it : ℕ → ℕ → dev.State → Option dev.State
  disable_channel_it channel mask s = put channel cid (u8 mask) s

  unfoldable pub get_channel_it_mask : ℕ → dev.State → Option (ℕ × dev.State)
  get_channel_it_mask channel s = get channel cim s

  unfoldable pub get_channel_isr : ℕ → dev.State → Option (ℕ × dev.State)
  get_channel_isr channel s = get channel cis s

  unfoldable pub get_mask_channel_isr : ℕ → dev.State → Option (ℕ × dev.State)
  get_mask_channel_isr channel s =
      let (status, s₁) = dev.read (chid channel cis) s in
      let (mask, s₂) = dev.read (chid channel cim) s₁ in checked channel (bit_and status mask, s₂)

  unfoldable pub set_source_addr : ℕ → ℕ → dev.State → Option dev.State
  set_source_addr channel addr s = put channel csa addr s

  unfoldable pub set_destination_addr : ℕ → ℕ → dev.State → Option dev.State
  set_destination_addr channel addr s = put channel cda addr s

  -- `(addr & 0xFFFFFFFC) | ndaif`, where the assertion makes `ndaif` 0 or 1
  unfoldable pub set_descriptor_addr : ℕ → ℕ → ℕ → dev.State → Option dev.State
  set_descriptor_addr channel addr ndaif s =
      if ltb ndaif 2 then put channel cnda (bit_or (bit_and addr 0xffff_fffc) ndaif) s else none

  -- The configuration is a `uint8_t`.
  unfoldable pub set_descriptor_control : ℕ → ℕ → dev.State → Option dev.State
  set_descriptor_control channel config s = put channel cndc (u8 config) s

  unfoldable pub set_microblock_control : ℕ → ℕ → dev.State → Option dev.State
  set_microblock_control channel ublen s = put channel cubc (field_24 ublen) s

  -- The length is a `uint16_t`.
  unfoldable pub set_block_control : ℕ → ℕ → dev.State → Option dev.State
  set_block_control channel blen s = put channel cbc (field_12 (u16 blen)) s

  unfoldable pub set_channel_config : ℕ → ℕ → dev.State → Option dev.State
  set_channel_config channel config s = put channel cc config s

  unfoldable pub get_channel_config : ℕ → dev.State → Option (ℕ × dev.State)
  get_channel_config channel s = get channel cc s

  unfoldable pub set_data_stride_mem_pattern : ℕ → ℕ → dev.State → Option dev.State
  set_data_stride_mem_pattern channel dds_msp s = put channel cds_msp dds_msp s

  unfoldable pub set_source_micro_block_stride : ℕ → ℕ → dev.State → Option dev.State
  set_source_micro_block_stride channel subs s = put channel csus (field_24 subs) s

  unfoldable pub set_destination_micro_block_stride : ℕ → ℕ → dev.State → Option dev.State
  set_destination_micro_block_stride channel dubs s = put channel cdus (field_24 dubs) s

  unfoldable pub get_ch_destination_addr : ℕ → dev.State → Option (ℕ × dev.State)
  get_ch_destination_addr channel s = get channel cda s

  -- The loop of `XDMAC_SoftwareFlushReq`; `none` means that it still waits when the rounds are over.
  unfoldable pub wait_for_flush : ℕ → ℕ → dev.State → Option dev.State
  wait_for_flush zero channel s = none
  wait_for_flush (suc rounds) channel s =
      let (status, s₁) = dev.read (chid channel cis) s in
      let rest = wait_for_flush rounds channel s₁ in
      if bit_and status cis_fis == 0 then rest else some s₁

  unfoldable pub software_flush_req : ℕ → ℕ → dev.State → Option dev.State
  unfolding wait_for_flush
  software_flush_req rounds channel s = do
    s₁ ← checked channel (dev.write (global gswf) (channel_bit channel) s)
    wait_for_flush rounds channel s₁
