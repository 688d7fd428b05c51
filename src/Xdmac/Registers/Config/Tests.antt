-- ===== src/Xdmac/Registers/Config/Tests.antt =====
-- The word for a transfer from memory to SPI0, and the word that `XDMAD_PrepareChannel` writes.
use taste_samv71_rtems_runti.Common.{◌≡◌, refl}
use taste_samv71_rtems_runti.Xdmac.Registers.Config.{
  per_tran, mem_tran, sixteen, single, mem2per, per2mem, unsec, hwr_connected, get_cc_memset, chk_1,
  get_datasize, ahb_if0, ahb_if1, get_cc_am, fixed_am, transfer_type, mbsize, dsync, prot, swreq,
  memset, csize, dwidth, sif, dif, sam, dam, perid,
}
use taste_samv71_rtems_runti.Xdmac.Registers.Config.Fields.{ChannelConfig, channel_word}

abbrev to_spi : ChannelConfig
to_spi = record {
  transfer_type_field = per_tran;
  mbsize_field = sixteen;
  dsync_field = mem2per;
  prot_field = unsec;
  swreq_field = hwr_connected;
  memset_field = get_cc_memset 0;
  csize_field = chk_1;
  dwidth_field = get_datasize 0;
  sif_field = ahb_if0;
  dif_field = ahb_if1;
  sam_field = get_cc_am 1;
  dam_field = get_cc_am 0;
  perid_field = 1;
}

spi_word : channel_word to_spi ≡ 0x0101_4037
unfolding channel_word transfer_type mbsize dsync prot swreq memset csize dwidth sif dif sam dam
    perid get_cc_memset get_datasize get_cc_am
spi_word = refl

-- An unsecured channel with all else zero
abbrev prepared : ChannelConfig
prepared = record to_spi {
  transfer_type_field = mem_tran;
  mbsize_field = single;
  dsync_field = per2mem;
  dif_field = ahb_if0;
  sam_field = fixed_am;
  perid_field = 0;
}

prepared_word : channel_word prepared ≡ 0x20
unfolding channel_word transfer_type mbsize dsync prot swreq memset csize dwidth sif dif sam dam
    perid get_cc_memset get_datasize get_cc_am
prepared_word = refl
