-- ===== src/Xdmac/Driver/Transfer/Views.antt =====
-- Which registers a linked list leaves to the caller's configuration, by the kind of its first
-- descriptor.
use taste_samv71_rtems_runti.Common.{
  ℕ, ◌<◌, ◌≤◌, ◌≡◌, ◌≢◌, ◌∙◌, true, false, some, arith, bit_and, bit_or, u8,
}
use taste_samv71_rtems_runti.Xdmac.Registers.{chid, ChannelRegister, csa, cda, cnda, cndc, cc}
use taste_samv71_rtems_runti.Xdmac.Registers.Device.{Device, is_parameter, cut}
use taste_samv71_rtems_runti.Xdmac.Registers.Device.Writes.{AreWords}
use taste_samv71_rtems_runti.Xdmac.Registers.Layout.{channel_index}
use taste_samv71_rtems_runti.Xdmac.Registers.Descriptor.{
  dscr_fetch_en, nde, Update, View, ndv0, ndv1, ndv2, ndv3, ndview, control_word,
  control_word_fields, members, register_of, has_register,
}
use taste_samv71_rtems_runti.Xdmac.Driver.Transfer.{Cfg, configure_transfer}
use taste_samv71_rtems_runti.Xdmac.Driver.Transfer.Linked.{
  linked, list_writes, listed_node, configure_transfer-linked,
}
use taste_samv71_rtems_runti.Xdmac.Driver.{Board, Node, state_of}
use taste_samv71_rtems_runti.Xdmac.Channels.{free, start, ok}

-- What the caller gives for a register, if it held `old`
unfoldable pub given : Cfg → ℕ → ℕ → ChannelRegister → ℕ → ℕ
given cfg desc_cfg desc_addr csa old = cut csa cfg.mbr_sa
given cfg desc_cfg desc_addr cda old = cut cda cfg.mbr_da
given cfg desc_cfg desc_addr cc old = cut cc cfg.mbr_cfg
given cfg desc_cfg desc_addr cndc old = cut cndc desc_cfg
given cfg desc_cfg desc_addr cnda old = cut cnda (bit_or (bit_and desc_addr 0xffff_fffc) 0)
given cfg desc_cfg desc_addr _ old = old

linked-given :
    (cfg : Cfg) (w desc_addr : ℕ) (view : View) (q : ChannelRegister) (old : ℕ)
    → bit_and w 24 ≡ ndview view
    → u8 w ≡ w
    → has_register q (members view) ≡ false
    → linked cfg w desc_addr q old ≡ given cfg w desc_addr q old
unfolding linked given has_register members register_of channel_index ndview
linked-given cfg w desc_addr ndv0 q old e b missing = ground arith
linked-given cfg w desc_addr ndv1 q old e b missing = ground arith
linked-given cfg w desc_addr ndv2 q old e b missing = ground arith
linked-given cfg w desc_addr ndv3 q old e b missing = ground arith

module _ (dev : Device) (board : Board) (channel : ℕ) (cfg : Cfg) (source destination : Update)
    (view : View) (desc_addr int_en : ℕ) (n : Node dev board) where
  abbrev w : ℕ
  w = control_word dscr_fetch_en source destination view

  -- When a transfer with a linked list is configured on a channel that exists and is neither free nor
  -- started, by a control word that fetches the first descriptor, each parameter register of the
  -- channel that the first descriptor does not contain holds what the caller gives, cut to the fields
  -- that can be written: the addresses, the channel configuration, the control word and the
  -- descriptor's address; a block length or a stride
  -- that it does not contain keeps its value.
  pub configure_transfer-given :
      (q : ChannelRegister)
      → is_parameter q ≡ true
      → has_register q (members view) ≡ false
      → u8 channel < n.xdmad.num_channels
      → n.xdmad.num_channels ≤ 24
      → state_of n.xdmad (u8 channel) ≢ free
      → state_of n.xdmad (u8 channel) ≢ start
      → AreWords (list_writes cfg w desc_addr)
      → (configure_transfer dev board channel cfg w desc_addr int_en n
          ≡ some (listed_node dev board channel cfg w desc_addr int_en n, ok))
        × (dev.value
              (chid (u8 channel) q)
              (listed_node dev board channel cfg w desc_addr int_en n).device
            ≡ given cfg w desc_addr q (dev.value (chid (u8 channel) q) n.device))
  unfolding nde
  configure_transfer-given q h missing exists few used resting words =
      let (fetched, viewed, byte) = control_word_fields dscr_fetch_en source destination view in
      let (run, _, value, _, _) =
        configure_transfer-linked dev board channel cfg w desc_addr int_en n q 24 h
          (λ e. omega arith) exists few used resting fetched words in
      let old = dev.value (chid (u8 channel) q) n.device in
      (run, value ∙ linked-given cfg w desc_addr view q old viewed byte missing)
