-- ===== src/Xdmac/Registers/Descriptor.antt =====
-- The descriptors of a linked list: `XDMAC_CNDC` of src/Xdmac/component_xdmac.h, which says how the next
-- one is read, and the four structures of src/Xdmac/xdmad.h.
use taste_samv71_rtems_runti.Common.{
  ℕ, ◌≡◌, Bool, false, Option, none, some, List, [], ◌∷◌, ◌||◌, ◌==◌, bit_and, bit_or, u8, arith,
}
use taste_samv71_rtems_runti.Xdmac.Registers.{
  ChannelRegister, csa, cda, cnda, cubc, cbc, cc, cds_msp, csus, cdus,
}
use taste_samv71_rtems_runti.Xdmac.Registers.Layout.{channel_index}
use taste_samv71_rtems_runti.Xdmac.Registers.Config.{shl}

pub data Fetch : Type 0 where
  dscr_fetch_dis dscr_fetch_en : Fetch

unfoldable pub nde : Fetch → ℕ
nde dscr_fetch_dis = shl 0 0
nde dscr_fetch_en = shl 1 0

-- Whether a descriptor changes the parameters of the source, or of the destination
pub data Update : Type 0 where
  params_unchanged params_updated : Update

unfoldable pub ndsup : Update → ℕ
ndsup params_unchanged = shl 0 1
ndsup params_updated = shl 1 1

unfoldable pub nddup : Update → ℕ
nddup params_unchanged = shl 0 2
nddup params_updated = shl 1 2

pub data View : Type 0 where
  ndv0 ndv1 ndv2 ndv3 : View

unfoldable pub ndview : View → ℕ
ndview ndv0 = shl 0 3
ndview ndv1 = shl 1 3
ndview ndv2 = shl 2 3
ndview ndv3 = shl 3 3

-- The control word that a user of the driver makes of them
unfoldable pub control_word : Fetch → Update → Update → View → ℕ
unfolding nde ndsup nddup ndview
control_word fetch source destination view =
    bit_or (nde fetch) (bit_or (ndsup source) (bit_or (nddup destination) (ndview view)))

-- The members of the structures `LinkedListDescriptorView0` to `LinkedListDescriptorView3`
pub data Member : Type 0 where
  mbr_nda mbr_ubc mbr_ta mbr_sa mbr_da mbr_cfg mbr_bc mbr_ds mbr_sus mbr_dus : Member

unfoldable pub members : View → List Member
members ndv0 = mbr_nda ∷ mbr_ubc ∷ mbr_ta ∷ []
members ndv1 = mbr_nda ∷ mbr_ubc ∷ mbr_sa ∷ mbr_da ∷ []
members ndv2 = mbr_nda ∷ mbr_ubc ∷ mbr_sa ∷ mbr_da ∷ mbr_cfg ∷ []
members ndv3 =
    mbr_nda ∷ mbr_ubc ∷ mbr_sa ∷ mbr_da ∷ mbr_cfg ∷ mbr_bc ∷ mbr_ds ∷ mbr_sus ∷ mbr_dus ∷ []

-- The register that a member is for; the one address of the first view is for the source or for the
-- destination.
unfoldable pub register_of : Member → Option ChannelRegister
register_of mbr_nda = some cnda
register_of mbr_ubc = some cubc
register_of mbr_ta = none
register_of mbr_sa = some csa
register_of mbr_da = some cda
register_of mbr_cfg = some cc
register_of mbr_bc = some cbc
register_of mbr_ds = some cds_msp
register_of mbr_sus = some csus
register_of mbr_dus = some cdus

abbrev is_for : ChannelRegister → Option ChannelRegister → Bool
is_for q none = false
is_for q (some r) = channel_index q == channel_index r

unfoldable pub has_register : ChannelRegister → List Member → Bool
has_register q [] = false
has_register q (m ∷ ms) = is_for q (register_of m) || has_register q ms

-- The two fields that the driver looks at are read back, and the word fits in a byte.
pub control_word_fields :
    (fetch : Fetch) (source destination : Update) (view : View)
    → (bit_and (control_word fetch source destination view) 1 ≡ nde fetch)
      × (bit_and (control_word fetch source destination view) 24 ≡ ndview view)
      × (u8 (control_word fetch source destination view)
          ≡ control_word fetch source destination view)
unfolding control_word
control_word_fields fetch source destination view = ground arith
