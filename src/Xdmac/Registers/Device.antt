-- ===== src/Xdmac/Registers/Device.antt =====
-- The DMA controller behind its registers, as an interface: what the data sheet says of accesses from
-- software, as far as the driver relies on it. What a running channel makes of its parameters, its
-- progress through addresses and lengths, is not the value to which they are set. Only a write to the
-- channel enable register lets the controller change the registers of a channel by itself.
pub mod Memory
pub mod Writes
use taste_samv71_rtems_runti.Common.{ℕ, ◌^◌, ◌<◌, ◌≡◌, ◌≢◌, Bool, true, false, bit_and, bit_or}
use taste_samv71_rtems_runti.Xdmac.Registers.{
  GlobalRegister, Register, global, chid, ge, ChannelRegister, cie, cid, cim, cis, csa, cda, cnda,
  cndc, cubc, cbc, cc, cds_msp, csus, cdus,
}

-- The registers that hold a transfer's parameters: a write sets their fields.
abbrev pub is_parameter : ChannelRegister → Bool
is_parameter cie = false
is_parameter cid = false
is_parameter cim = false
is_parameter cis = false
is_parameter csa = true
is_parameter cda = true
is_parameter cnda = true
is_parameter cndc = true
is_parameter cubc = true
is_parameter cbc = true
is_parameter cc = true
is_parameter cds_msp = true
is_parameter csus = true
is_parameter cdus = true

-- The fields of the parameter registers that software can write, by the masks of
-- src/Xdmac/component_xdmac.h; the status bits of `XDMAC_CC` are read-only.
unfoldable pub writable : ChannelRegister → ℕ
writable csa = 0xffff_ffff
writable cda = 0xffff_ffff
writable cnda = 0xffff_fffd
writable cndc = 0x1f
writable cubc = 0xff_ffff
writable cbc = 0xfff
writable cc = 0x7f0f_7ff7
writable cds_msp = 0xffff_ffff
writable csus = 0xff_ffff
writable cdus = 0xff_ffff
writable _ = 0

-- What stays of a value that is written
unfoldable pub cut : ChannelRegister → ℕ → ℕ
unfolding writable
cut q v = bit_and (writable q) v

pub record Device : Type 1 where
  pub State : Type 0
  pub read : Register → State → ℕ × State
  pub write : Register → ℕ → State → State
  -- what a register of parameters is set to, in the fields that software can write, and what a read of
  -- another register would give
  pub value : Register → State → ℕ
  pub read-value : (g : GlobalRegister) (s : State) → (read (global g) s).0 ≡ value (global g) s
  pub read_mask : (c : ℕ) (s : State) → (read (chid c cim) s).0 ≡ value (chid c cim) s
  pub read_keeps :
      (r : Register) (c : ℕ) (q : ChannelRegister) (s : State)
      → is_parameter q ≡ true
      → value (chid c q) (read r s).1 ≡ value (chid c q) s
  pub write-value :
      (c : ℕ) (q : ChannelRegister) (v : ℕ) (s : State)
      → is_parameter q ≡ true
      → v < 2 ^ 32
      → value (chid c q) (write (chid c q) v s) ≡ cut q v
  pub write_keeps :
      (r : Register) (c : ℕ) (q : ChannelRegister) (v : ℕ) (s : State)
      → is_parameter q ≡ true
      → r ≢ chid c q
      → r ≢ global ge
      → value (chid c q) (write r v s) ≡ value (chid c q) s
  -- the interrupt mask is set by one register and cleared by another
  pub read_keeps_mask :
      (r : Register) (c : ℕ) (s : State) → value (chid c cim) (read r s).1 ≡ value (chid c cim) s
  pub mask_set :
      (c v : ℕ) (s : State)
      → value (chid c cim) (write (chid c cie) v s) ≡ bit_or (value (chid c cim) s) v
  pub mask_clear : (c : ℕ) (s : State) → value (chid c cim) (write (chid c cid) 0xff s) ≡ 0
  pub write_keeps_mask :
      (r : Register) (c v : ℕ) (s : State)
      → r ≢ chid c cie
      → r ≢ chid c cid
      → r ≢ chid c cim
      → value (chid c cim) (write r v s) ≡ value (chid c cim) s
