-- ===== src/Xdmac/Registers/Config/Fields.antt =====
-- A configuration word made of its fields, and its fields read back by their masks.
use taste_samv71_rtems_runti.Common.{ℕ, bit_or}
use taste_samv71_rtems_runti.Xdmac.Registers.Config.{
  TransferType, BurstSize, Synchronization, Protection, SoftwareRequest, MemSet, ChunkSize,
  DataWidth, BusInterface, AddressingMode, transfer_type, mbsize, dsync, prot, swreq, memset, csize,
  dwidth, sif, dif, sam, dam, perid,
}

-- A configuration; the read-only bits are not part of it.
pub record ChannelConfig : Type 0 where
  pub transfer_type_field : TransferType
  pub mbsize_field : BurstSize
  pub dsync_field : Synchronization
  pub prot_field : Protection
  pub swreq_field : SoftwareRequest
  pub memset_field : MemSet
  pub csize_field : ChunkSize
  pub dwidth_field : DataWidth
  pub sif_field : BusInterface
  pub dif_field : BusInterface
  pub sam_field : AddressingMode
  pub dam_field : AddressingMode
  pub perid_field : ℕ

-- The word that a user of the driver makes of the fields
unfoldable pub channel_word : ChannelConfig → ℕ
channel_word c = bit_or (transfer_type c.transfer_type_field) (
    bit_or (mbsize c.mbsize_field) (
      bit_or (dsync c.dsync_field) (
        bit_or (prot c.prot_field) (
          bit_or (swreq c.swreq_field) (
            bit_or (memset c.memset_field) (
              bit_or (csize c.csize_field) (
                bit_or (dwidth c.dwidth_field) (
                  bit_or (sif c.sif_field) (
                    bit_or (dif c.dif_field) (
                      bit_or (sam c.sam_field)
                        (bit_or (dam c.dam_field) (perid c.perid_field))))))))))))
