-- ===== src/Xdmac/Driver/Transfer/Configured.antt =====
-- What the registers of a channel hold after a transfer without linked list is configured.
use taste_samv71_rtems_runti.Common.{
  ℕ, ◌<◌, ◌≤◌, ◌≡◌, ◌≢◌, refl, ◌∙◌, ap, true, false, some, none, [], ◌∷◌, ltb, lt→ltb, leb, ◌==◌,
  arith, bit_and, bit_or, u8, u16,
}
use taste_samv71_rtems_runti.Xdmac.Registers.{
  chid, ChannelRegister, cie, cid, cim, cis, csa, cda, cnda, cndc, cubc, cbc, cc, cds_msp, csus,
  cdus,
}
use taste_samv71_rtems_runti.Xdmac.Registers.Device.{Device, is_parameter, cut}
use taste_samv71_rtems_runti.Xdmac.Registers.Device.Writes.{
  Writes, AreWords, write_all, write_all-value, write_all-mask, write_all-other, last_write,
}
use taste_samv71_rtems_runti.Xdmac.Registers.Layout.{channel_index}
use taste_samv71_rtems_runti.Xdmac.Registers.Channel.{
  field_24, field_12, get_channel_isr, enable_channel_it, set_source_addr, set_destination_addr,
  set_microblock_control, set_block_control, set_channel_config, set_data_stride_mem_pattern,
  set_source_micro_block_stride, set_destination_micro_block_stride, set_descriptor_addr,
  set_descriptor_control,
}
use taste_samv71_rtems_runti.Xdmac.Driver.Transfer.{
  Cfg, cndc_nde, refuse, configure_single, configure_registers, configure_transfer,
}
use taste_samv71_rtems_runti.Xdmac.Driver.{Board, Node, state_of}
use taste_samv71_rtems_runti.Xdmac.Channels.{
  State, free, allocated, start, in_xfr, done, halted, ok,
}

-- Only a free and a started channel refuse a configuration and a start.
pub refuse-none : (s : State) → s ≢ free → s ≢ start → refuse s ≡ none
refuse-none free used resting = absurd (used refl)
refuse-none start used resting = absurd (resting refl)
refuse-none allocated used resting = refl
refuse-none in_xfr used resting = refl
refuse-none done used resting = refl
refuse-none halted used resting = refl

cie_ne : (q : ChannelRegister) → is_parameter q ≡ true → cie ≢ q
cie_ne q h e = ground arith

module _ (cfg : Cfg) where
  -- The writes to parameters, the latest first; the interrupts are enabled behind them.
  abbrev pub writes : Writes
  writes =
      (cndc, 0)
      ∷ (cnda, 0)
      ∷ (cc, cfg.mbr_cfg)
      ∷ (cdus, field_24 cfg.mbr_dus)
      ∷ (csus, field_24 cfg.mbr_sus)
      ∷ (cds_msp, cfg.mbr_ds)
      ∷ (cbc, field_12 (u16 cfg.mbr_bc))
      ∷ (cubc, field_24 cfg.mbr_ubc)
      ∷ (cda, cfg.mbr_da)
      ∷ (csa, cfg.mbr_sa)
      ∷ []

  -- What the parameter registers of the channel then hold
  unfoldable pub configured : ChannelRegister → ℕ
  configured csa = cut csa cfg.mbr_sa
  configured cda = cut cda cfg.mbr_da
  configured cubc = cut cubc (field_24 cfg.mbr_ubc)
  configured cbc = cut cbc (field_12 (u16 cfg.mbr_bc))
  configured cds_msp = cut cds_msp cfg.mbr_ds
  configured csus = cut csus (field_24 cfg.mbr_sus)
  configured cdus = cut cdus (field_24 cfg.mbr_dus)
  configured cc = cut cc cfg.mbr_cfg
  configured cnda = cut cnda 0
  configured cndc = cut cndc 0
  configured _ = 0

  last_write-configured :
      (q : ChannelRegister) (old : ℕ)
      → is_parameter q ≡ true
      → last_write q writes old ≡ configured q
  unfolding last_write configured channel_index
  last_write-configured csa old h = refl
  last_write-configured cda old h = refl
  last_write-configured cnda old h = refl
  last_write-configured cndc old h = refl
  last_write-configured cubc old h = refl
  last_write-configured cbc old h = refl
  last_write-configured cc old h = refl
  last_write-configured cds_msp old h = refl
  last_write-configured csus old h = refl
  last_write-configured cdus old h = refl
  last_write-configured cie old h = ground arith
  last_write-configured cid old h = ground arith
  last_write-configured cim old h = ground arith
  last_write-configured cis old h = ground arith

module _ (dev : Device) (i : ℕ) (cfg : Cfg) (int_en : ℕ) (s : dev.State) where
  abbrev pub written : dev.State
  written = dev.write (chid i cie) (u8 int_en) (write_all dev i (writes cfg) s)

  module _ (inside : i < 24) where
    configure_single-written : configure_single dev i cfg int_en s ≡ some written
    unfolding configure_single write_all set_source_addr set_destination_addr set_microblock_control
        set_block_control set_data_stride_mem_pattern set_source_micro_block_stride
        set_destination_micro_block_stride set_channel_config set_descriptor_addr
        set_descriptor_control enable_channel_it
    configure_single-written = simp (lt→ltb i 24 inside)

    module _ (words : AreWords (writes cfg)) where
      written-value :
          (q : ChannelRegister)
          → is_parameter q ≡ true
          → dev.value (chid i q) written ≡ configured cfg q
      written-value q h =
          dev.write_keeps (chid i cie) i q (u8 int_en) (write_all dev i (writes cfg) s) h
            (λ e. cie_ne q h (ground arith)) (λ e. ground arith)
          ∙ write_all-value dev i (writes cfg) q s h words
          ∙ last_write-configured cfg q _ h

      written_lem :
          ((q : ChannelRegister)
            → is_parameter q ≡ true
            → dev.value (chid i q) written ≡ configured cfg q)
          × (dev.value (chid i cim) written ≡ bit_or (dev.value (chid i cim) s) (u8 int_en))
          × ((j : ℕ) (q : ChannelRegister)
              → is_parameter q ≡ true
              → i ≢ j
              → dev.value (chid j q) written ≡ dev.value (chid j q) s)
      written_lem = (
        written-value,
        dev.mask_set i (u8 int_en) (write_all dev i (writes cfg) s)
            ∙ ap (λ m. bit_or m (u8 int_en))
                (write_all-mask dev i (writes cfg) i s (
                  refl,
                  (refl, (refl, (refl, (refl, (refl, (refl, (refl, (refl, (refl, tt))))))))),
                )),
        λ j q h ne.
            dev.write_keeps (chid i cie) j q (u8 int_en) (write_all dev i (writes cfg) s) h
              (λ e. ne (ground arith)) (λ e. ground arith)
            ∙ write_all-other dev i (writes cfg) j q s h ne,
      )

module _ (dev : Device) (board : Board) (channel : ℕ) (cfg : Cfg) (desc_cfg desc_addr int_en : ℕ)
    (n : Node dev board) where
  abbrev i : ℕ
  i = u8 channel

  -- The node after the writes
  abbrev pub configured_node : Node dev board
  configured_node = record n {
    device = written dev i cfg int_en (dev.read (chid i cis) n.device).1;
  }

  pub configure_transfer_lem :
      (q : ChannelRegister) (j : ℕ)
      → is_parameter q ≡ true
      → i ≢ j
      → i < n.xdmad.num_channels
      → n.xdmad.num_channels ≤ 24
      → state_of n.xdmad i ≢ free
      → state_of n.xdmad i ≢ start
      → bit_and desc_cfg cndc_nde ≡ 0
      → AreWords (writes cfg)
      → (configure_transfer dev board channel cfg desc_cfg desc_addr int_en n
          ≡ some (configured_node, ok))
        × (configured_node.xdmad ≡ n.xdmad)
        × (dev.value (chid i q) configured_node.device ≡ configured cfg q)
        × (dev.value (chid i cim) configured_node.device
            ≡ bit_or (dev.value (chid i cim) n.device) (u8 int_en))
        × (dev.value (chid j q) configured_node.device ≡ dev.value (chid j q) n.device)
  unfolding configure_transfer get_channel_isr configure_registers
  configure_transfer_lem q j h ne exists few used resting single words =
      let ready = refuse-none (state_of n.xdmad i) used resting in
      let s₁ = (dev.read (chid i cis) n.device).1 in
      let inside : ltb i 24 ≡ true = ground arith in
      let (values, mask, others) = written_lem dev i cfg int_en s₁ (omega arith) words in
      let run = configure_single-written dev i cfg int_en s₁ (omega arith) in
      let known : leb n.xdmad.num_channels i ≡ false = ground arith in
      let plain : (bit_and desc_cfg cndc_nde == cndc_nde) ≡ false = ground arith in
      (
        simp (known, inside, ready, plain, run),
        refl,
        values q h,
        mask ∙ ap (λ m. bit_or m (u8 int_en)) (dev.read_keeps_mask (chid i cis) i n.device),
        others j q h ne ∙ dev.read_keeps (chid i cis) j q n.device h,
      )
