-- ===== src/Xdmac/Registers/Layout.antt =====
-- Where the registers stand in memory, from the order of the fields of `Xdmac` and `XdmacChid`.
use taste_samv71_rtems_runti.Common.{
  ℕ, ◌+◌, ◌*◌, ◌%◌, ◌<◌, ◌≤◌, ◌≡◌, ap, sym, ◌∙◌, some, arith, get_elem?, List, [], ◌∷◌,
}
use mathlib.Core.Option.{some_inj}
use taste_samv71_rtems_runti.Xdmac.Registers.{
  Register, global, chid, GlobalRegister, gtype, gcfg, gwac, gie, gid, gim, gis, ge, gd, gs, grs,
  gws, grws, grwr, gswr, gsws, gswf, ChannelRegister, cie, cid, cim, cis, csa, cda, cnda, cndc,
  cubc, cbc, cc, cds_msp, csus, cdus,
}

-- `XDMAC` of src/Xdmac/xdmac.h
abbrev pub xdmac : ℕ
xdmac = 0x4007_8000

abbrev pub xdmac_channel_num : ℕ
xdmac_channel_num = 24

-- The place of a field among the words of its structure
unfoldable pub global_index : GlobalRegister → ℕ
global_index gtype = 0
global_index gcfg = 1
global_index gwac = 2
global_index gie = 3
global_index gid = 4
global_index gim = 5
global_index gis = 6
global_index ge = 7
global_index gd = 8
global_index gs = 9
global_index grs = 10
global_index gws = 11
global_index grws = 12
global_index grwr = 13
global_index gswr = 14
global_index gsws = 15
global_index gswf = 16

unfoldable pub channel_index : ChannelRegister → ℕ
channel_index cie = 0
channel_index cid = 1
channel_index cim = 2
channel_index cis = 3
channel_index csa = 4
channel_index cda = 5
channel_index cnda = 6
channel_index cndc = 7
channel_index cubc = 8
channel_index cbc = 9
channel_index cc = 10
channel_index cds_msp = 11
channel_index csus = 12
channel_index cdus = 13

-- The channels' blocks have 16 words and stand behind the 17 global registers and 3 reserved words.
unfoldable pub address : Register → ℕ
unfolding global_index channel_index
address (global r) = xdmac + 4 * global_index r
address (chid c r) = xdmac + 0x50 + 0x40 * c + 4 * channel_index r

globals : List GlobalRegister
globals =
    gtype ∷ gcfg ∷ gwac ∷ gie ∷ gid ∷ gim ∷ gis ∷ ge ∷ gd ∷ gs ∷ grs ∷ gws ∷ grws ∷ grwr ∷ gswr
    ∷ gsws ∷ gswf ∷ []

channel_registers : List ChannelRegister
channel_registers =
    cie ∷ cid ∷ cim ∷ cis ∷ csa ∷ cda ∷ cnda ∷ cndc ∷ cubc ∷ cbc ∷ cc ∷ cds_msp ∷ csus ∷ cdus ∷ []

global-index-lt : (r : GlobalRegister) → global_index r < 17
unfolding global_index
global-index-lt r = ground arith

channel-index-lt : (r : ChannelRegister) → channel_index r < 14
unfolding channel_index
channel-index-lt r = ground arith

at-global_index : (r : GlobalRegister) → get_elem? globals (global_index r) ≡ some r
unfolding global_index globals
at-global_index r = ground arith

at-channel_index : (r : ChannelRegister) → get_elem? channel_registers (channel_index r) ≡ some r
unfolding channel_index channel_registers
at-channel_index r = ground arith

global_index_injective : (r s : GlobalRegister) → global_index r ≡ global_index s → r ≡ s
global_index_injective r s e =
    some_inj.0 (sym (at-global_index r) ∙ ap (get_elem? globals) e ∙ at-global_index s)

pub channel_index_injective : (r s : ChannelRegister) → channel_index r ≡ channel_index s → r ≡ s
channel_index_injective r s e =
    some_inj.0 (sym (at-channel_index r) ∙ ap (get_elem? channel_registers) e ∙ at-channel_index s)

-- Different registers have different addresses, so an access to one never meets another.
pub address_injective : (r s : Register) → address r ≡ address s → r ≡ s
unfolding address
address_injective (global r) (global s) e = ap global (global_index_injective r s (omega arith))
address_injective (global r) (chid d s) e = absurd (omega (arith, global-index-lt r))
address_injective (chid c r) (global s) e = absurd (omega (arith, global-index-lt s))
address_injective (chid c r) (chid d s) e =
    let block : c ≡ d = omega (arith, channel-index-lt r, channel-index-lt s) in
    rw block (ap (chid d) (channel_index_injective r s (omega (arith, block))))

-- The registers of the 24 channels lie in the 1616 bytes of the structure, at multiples of 4.
pub address_bounds :
    (c : ℕ) (r : ChannelRegister)
    → c < xdmac_channel_num
    → (xdmac + 0x50 ≤ address (chid c r))
      × (address (chid c r) + 4 ≤ xdmac + 1616)
      × (address (chid c r) % 4 ≡ 0)
unfolding address
address_bounds c r h = omega (arith, channel-index-lt r)
