-- ===== src/Xdmac/Registers/Global.antt =====
-- The functions of src/Xdmac/xdmac.c on the global registers.
use taste_samv71_rtems_runti.Common.{
  ℕ, ◌^◌, Option, some, none, if◌then◌else◌, ltb, bit_and, bit_or, u32,
}
use taste_samv71_rtems_runti.Xdmac.Registers.{
  global, GlobalRegister, gtype, gcfg, gwac, gie, gid, gim, gis, ge, gd, gs, grs, gws, grws, grwr,
  gswr, gsws,
}
use taste_samv71_rtems_runti.Xdmac.Registers.Layout.{xdmac_channel_num}
use taste_samv71_rtems_runti.Xdmac.Registers.Device.{Device}

-- `1u << channel`; the mask of channel 0 is the lowest bit in each of the registers.
abbrev pub channel_bit : ℕ → ℕ
channel_bit channel = u32 (2 ^ channel)

-- `assert(channel < XDMAC_CHANNEL_NUM)` before an access
abbrev pub checked {ℓ} : {A : Type ℓ} → ℕ → A → Option A
checked channel a = if ltb channel xdmac_channel_num then some a else none

module _ (dev : Device) where
  abbrev get : GlobalRegister → dev.State → ℕ × dev.State
  get r s = dev.read (global r) s

  abbrev put : GlobalRegister → ℕ → dev.State → dev.State
  put r v s = dev.write (global r) v s

  unfoldable pub get_type : dev.State → ℕ × dev.State
  get_type s = get gtype s

  unfoldable pub get_config : dev.State → ℕ × dev.State
  get_config s = get gcfg s

  unfoldable pub get_arbiter : dev.State → ℕ × dev.State
  get_arbiter s = get gwac s

  unfoldable pub enable_git : ℕ → dev.State → dev.State
  enable_git channel s = put gie (channel_bit channel) s

  unfoldable pub disable_git : ℕ → dev.State → dev.State
  disable_git channel s = put gid (channel_bit channel) s

  unfoldable pub get_git_mask : dev.State → ℕ × dev.State
  get_git_mask s = get gim s

  unfoldable pub get_gisr : dev.State → ℕ × dev.State
  get_gisr s = get gis s

  unfoldable pub get_masked_gisr : dev.State → ℕ × dev.State
  get_masked_gisr s =
      let (status, s₁) = get gis s in let (mask, s₂) = get gim s₁ in (bit_and status mask, s₂)

  unfoldable pub enable_channel : ℕ → dev.State → Option dev.State
  enable_channel channel s = checked channel (put ge (channel_bit channel) s)

  unfoldable pub enable_channels : ℕ → dev.State → dev.State
  enable_channels channels s = put ge channels s

  unfoldable pub disable_channel : ℕ → dev.State → Option dev.State
  disable_channel channel s = checked channel (put gd (channel_bit channel) s)

  unfoldable pub disable_channels : ℕ → dev.State → dev.State
  disable_channels channels s = put gd channels s

  unfoldable pub get_global_ch_status : dev.State → ℕ × dev.State
  get_global_ch_status s = get gs s

  -- `|=` reads the register and writes it.
  abbrev add_bit : GlobalRegister → ℕ → dev.State → dev.State
  add_bit r channel s = let (old, s₁) = get r s in put r (bit_or old (channel_bit channel)) s₁

  unfoldable pub suspend_read_channel : ℕ → dev.State → Option dev.State
  suspend_read_channel channel s = checked channel (add_bit grs channel s)

  unfoldable pub suspend_write_channel : ℕ → dev.State → Option dev.State
  suspend_write_channel channel s = checked channel (add_bit gws channel s)

  unfoldable pub suspend_read_write_channel : ℕ → dev.State → Option dev.State
  suspend_read_write_channel channel s = checked channel (put grws (channel_bit channel) s)

  unfoldable pub resume_read_write_channel : ℕ → dev.State → Option dev.State
  resume_read_write_channel channel s = checked channel (put grwr (channel_bit channel) s)

  unfoldable pub software_transfer_req : ℕ → dev.State → Option dev.State
  software_transfer_req channel s = checked channel (put gswr (channel_bit channel) s)

  unfoldable pub get_software_transfer_status : dev.State → ℕ × dev.State
  get_software_transfer_status s = get gsws s
