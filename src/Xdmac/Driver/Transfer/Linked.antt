-- ===== src/Xdmac/Driver/Transfer/Linked.antt =====
-- What the registers of a channel hold after a transfer with a linked list is configured.
use taste_samv71_rtems_runti.Common.Masks.{bit_or_zero}
use taste_samv71_rtems_runti.Common.{
  ℕ, ◌<◌, ◌≤◌, ◌≡◌, ◌≢◌, refl, ◌∙◌, ap, true, false, some, [], ◌∷◌, if◌then◌else◌, ◌||◌, ltb,
  lt→ltb, leb, ◌==◌, arith, bit_and, bit_or, u8,
}
use taste_samv71_rtems_runti.Xdmac.Registers.{
  chid, ChannelRegister, cie, cid, cim, cis, csa, cda, cnda, cndc, cc,
}
use taste_samv71_rtems_runti.Xdmac.Registers.Device.{Device, is_parameter, cut}
use taste_samv71_rtems_runti.Xdmac.Registers.Device.Writes.{
  Writes, AreWords, write_all, write_all-value, write_all-other, last_write,
}
use taste_samv71_rtems_runti.Xdmac.Registers.Layout.{channel_index}
use taste_samv71_rtems_runti.Xdmac.Registers.Channel.{
  get_channel_isr, enable_channel_it, disable_channel_it, set_source_addr, set_destination_addr,
  set_channel_config, set_descriptor_addr, set_descriptor_control,
}
use taste_samv71_rtems_runti.Xdmac.Driver.Transfer.{
  Cfg, cndc_nde, cndc_ndview_msk, load_view, configure_list, configure_registers,
  configure_transfer,
}
use taste_samv71_rtems_runti.Xdmac.Driver.{Board, Node, state_of}
use taste_samv71_rtems_runti.Xdmac.Channels.{free, start, ok}
use taste_samv71_rtems_runti.Xdmac.Driver.Transfer.Configured.{refuse-none}

module _ (cfg : Cfg) (desc_cfg desc_addr : ℕ) where
  abbrev view : ℕ
  view = bit_and desc_cfg cndc_ndview_msk

  -- The writes by the kind of the first descriptor, the latest first
  abbrev view_writes : Writes
  view_writes =
      if view == 0
      then (cda, cfg.mbr_da) ∷ (csa, cfg.mbr_sa) ∷ (cc, cfg.mbr_cfg) ∷ []
      else if view == 8
      then (cc, cfg.mbr_cfg) ∷ []
      else []

  abbrev pub list_writes : Writes
  list_writes = (cndc, u8 desc_cfg) ∷ (cnda, bit_or (bit_and desc_addr 0xffff_fffc) 0) ∷ view_writes

  -- What a parameter register of the channel holds afterwards, if it held `old`: the list gives what
  -- its first descriptor contains, and the configuration the rest.
  unfoldable pub linked : ChannelRegister → ℕ → ℕ
  linked cndc old = cut cndc (u8 desc_cfg)
  linked cnda old = cut cnda (bit_or (bit_and desc_addr 0xffff_fffc) 0)
  linked cc old = if view == 0 || view == 8 then cut cc cfg.mbr_cfg else old
  linked csa old = if view == 0 then cut csa cfg.mbr_sa else old
  linked cda old = if view == 0 then cut cda cfg.mbr_da else old
  linked _ old = old

  last_write-linked :
      (q : ChannelRegister) (old : ℕ)
      → is_parameter q ≡ true
      → last_write q list_writes old ≡ linked q old
  unfolding last_write linked channel_index
  last_write-linked q old h = ground arith

  module _ (dev : Device) (i int_en : ℕ) (s : dev.State) where
    abbrev loaded : dev.State
    loaded = write_all dev i list_writes s

    abbrev masked : dev.State
    masked = dev.write (chid i cid) 0xff loaded

    abbrev pub listed : dev.State
    listed = dev.write (chid i cie) (u8 int_en) masked

    load_view-write_all : i < 24 → load_view dev i cfg view s ≡ some (write_all dev i view_writes s)
    unfolding load_view write_all set_source_addr set_destination_addr set_channel_config
    load_view-write_all inside =
        let known : ltb i 24 ≡ true = lt→ltb i 24 inside in ground (arith, known)

    configure_list-listed :
        i < 24 → configure_list dev i cfg desc_cfg desc_addr int_en s ≡ some listed
    unfolding configure_list write_all set_descriptor_addr set_descriptor_control enable_channel_it
        disable_channel_it
    configure_list-listed inside =
        let known : ltb i 24 ≡ true = lt→ltb i 24 inside in simp (known, load_view-write_all inside)

    -- The two writes to the interrupt mask keep every parameter.
    listed-parameter :
        (j : ℕ) (q : ChannelRegister)
        → is_parameter q ≡ true
        → dev.value (chid j q) listed ≡ dev.value (chid j q) loaded
    listed-parameter j q h =
        dev.write_keeps (chid i cie) j q (u8 int_en) masked h (λ e. ground arith)
          (λ e. ground arith)
        ∙ dev.write_keeps (chid i cid) j q 0xff loaded h (λ e. ground arith) (λ e. ground arith)

    listed-mask : dev.value (chid i cim) listed ≡ u8 int_en
    listed-mask =
        dev.mask_set i (u8 int_en) masked
        ∙ ap (λ m. bit_or m (u8 int_en)) (dev.mask_clear i loaded)
        ∙ bit_or_zero (u8 int_en)

module _ (dev : Device) (board : Board) (channel : ℕ) (cfg : Cfg) (desc_cfg desc_addr int_en : ℕ)
    (n : Node dev board) where
  abbrev i : ℕ
  i = u8 channel

  -- The node after the writes
  abbrev pub listed_node : Node dev board
  listed_node = record n {
    device = listed cfg desc_cfg desc_addr dev i int_en (dev.read (chid i cis) n.device).1;
  }

  pub configure_transfer-linked :
      (q : ChannelRegister) (j : ℕ)
      → is_parameter q ≡ true
      → i ≢ j
      → i < n.xdmad.num_channels
      → n.xdmad.num_channels ≤ 24
      → state_of n.xdmad i ≢ free
      → state_of n.xdmad i ≢ start
      → bit_and desc_cfg cndc_nde ≡ cndc_nde
      → AreWords (list_writes cfg desc_cfg desc_addr)
      → (configure_transfer dev board channel cfg desc_cfg desc_addr int_en n
          ≡ some (listed_node, ok))
        × (listed_node.xdmad ≡ n.xdmad)
        × (dev.value (chid i q) listed_node.device
            ≡ linked cfg desc_cfg desc_addr q (dev.value (chid i q) n.device))
        × (dev.value (chid i cim) listed_node.device ≡ u8 int_en)
        × (dev.value (chid j q) listed_node.device ≡ dev.value (chid j q) n.device)
  unfolding configure_transfer get_channel_isr configure_registers
  configure_transfer-linked q j h ne exists few used resting list words =
      let ready = refuse-none (state_of n.xdmad i) used resting in
      let s₁ = (dev.read (chid i cis) n.device).1 in
      let inside : ltb i 24 ≡ true = ground arith in
      let run = configure_list-listed cfg desc_cfg desc_addr dev i int_en s₁ (omega arith) in
      let known : leb n.xdmad.num_channels i ≡ false = ground arith in
      let fetched : (bit_and desc_cfg cndc_nde == cndc_nde) ≡ true = ground arith in
      let ws = list_writes cfg desc_cfg desc_addr in
      (
        simp (known, inside, ready, fetched, run),
        refl,
        listed-parameter cfg desc_cfg desc_addr dev i int_en s₁ i q h
            ∙ write_all-value dev i ws q s₁ h words
            ∙ last_write-linked cfg desc_cfg desc_addr q _ h
            ∙ ap (linked cfg desc_cfg desc_addr q) (dev.read_keeps (chid i cis) i q n.device h),
        listed-mask cfg desc_cfg desc_addr dev i int_en s₁,
        listed-parameter cfg desc_cfg desc_addr dev i int_en s₁ j q h
            ∙ write_all-other dev i ws j q s₁ h ne
            ∙ dev.read_keeps (chid i cis) j q n.device h,
      )
