-- ===== src/Xdmac/Registers/Config.antt =====
-- The channel configuration register, `XDMAC_CC` of src/Xdmac/component_xdmac.h: the values that its
-- fields can have, and the macros of src/Xdmac/xdmac.h that choose them.
pub mod Digits
pub mod Fields
mod Tests
use taste_samv71_rtems_runti.Common.{ℕ, ◌*◌, ◌^◌, if◌then◌else◌, ◌==◌, bit_or, bit_and}

-- A shift to the left of a value that stays within 32 bits
abbrev pub shl : ℕ → ℕ → ℕ
shl v p = v * 2 ^ p

pub data TransferType : Type 0 where
  mem_tran per_tran : TransferType

abbrev pub transfer_type_msk : ℕ
transfer_type_msk = shl 1 0

unfoldable pub transfer_type : TransferType → ℕ
transfer_type mem_tran = shl 0 0
transfer_type per_tran = shl 1 0

pub data BurstSize : Type 0 where
  single four eight sixteen : BurstSize

abbrev pub mbsize_msk : ℕ
mbsize_msk = shl 3 1

unfoldable pub mbsize : BurstSize → ℕ
mbsize single = shl 0 1
mbsize four = shl 1 1
mbsize eight = shl 2 1
mbsize sixteen = shl 3 1

pub data Synchronization : Type 0 where
  per2mem mem2per : Synchronization

abbrev pub dsync_msk : ℕ
dsync_msk = shl 1 4

unfoldable pub dsync : Synchronization → ℕ
dsync per2mem = shl 0 4
dsync mem2per = shl 1 4

pub data Protection : Type 0 where
  sec unsec : Protection

abbrev pub prot_msk : ℕ
prot_msk = shl 1 5

unfoldable pub prot : Protection → ℕ
prot sec = shl 0 5
prot unsec = shl 1 5

pub data SoftwareRequest : Type 0 where
  hwr_connected swr_connected : SoftwareRequest

abbrev pub swreq_msk : ℕ
swreq_msk = shl 1 6

unfoldable pub swreq : SoftwareRequest → ℕ
swreq hwr_connected = shl 0 6
swreq swr_connected = shl 1 6

pub data MemSet : Type 0 where
  normal_mode hw_mode : MemSet

abbrev pub memset_msk : ℕ
memset_msk = shl 1 7

unfoldable pub memset : MemSet → ℕ
memset normal_mode = shl 0 7
memset hw_mode = shl 1 7

pub data ChunkSize : Type 0 where
  chk_1 chk_2 chk_4 chk_8 chk_16 : ChunkSize

abbrev pub csize_msk : ℕ
csize_msk = shl 7 8

unfoldable pub csize : ChunkSize → ℕ
csize chk_1 = shl 0 8
csize chk_2 = shl 1 8
csize chk_4 = shl 2 8
csize chk_8 = shl 3 8
csize chk_16 = shl 4 8

pub data DataWidth : Type 0 where
  byte halfword word : DataWidth

abbrev pub dwidth_msk : ℕ
dwidth_msk = shl 3 11

unfoldable pub dwidth : DataWidth → ℕ
dwidth byte = shl 0 11
dwidth halfword = shl 1 11
dwidth word = shl 2 11

-- The system bus interface, of the source and of the destination
pub data BusInterface : Type 0 where
  ahb_if0 ahb_if1 : BusInterface

abbrev pub sif_msk : ℕ
sif_msk = shl 1 13

unfoldable pub sif : BusInterface → ℕ
sif ahb_if0 = shl 0 13
sif ahb_if1 = shl 1 13

abbrev pub dif_msk : ℕ
dif_msk = shl 1 14

unfoldable pub dif : BusInterface → ℕ
dif ahb_if0 = shl 0 14
dif ahb_if1 = shl 1 14

-- The addressing mode, of the source and of the destination
pub data AddressingMode : Type 0 where
  fixed_am incremented_am ubs_am ubs_ds_am : AddressingMode

abbrev pub sam_msk : ℕ
sam_msk = shl 3 16

unfoldable pub sam : AddressingMode → ℕ
sam fixed_am = shl 0 16
sam incremented_am = shl 1 16
sam ubs_am = shl 2 16
sam ubs_ds_am = shl 3 16

abbrev pub dam_msk : ℕ
dam_msk = shl 3 18

unfoldable pub dam : AddressingMode → ℕ
dam fixed_am = shl 0 18
dam incremented_am = shl 1 18
dam ubs_am = shl 2 18
dam ubs_ds_am = shl 3 18

-- `XDMAC_CC_PERID(value)`, with the identifier as a number below 2^8
abbrev pub perid_msk : ℕ
perid_msk = shl 127 24

unfoldable pub perid : ℕ → ℕ
perid value = bit_and perid_msk (shl value 24)

-- `XDMA_GET_DATASIZE`, `XDMA_GET_CC_SAM`, `XDMA_GET_CC_DAM` and `XDMA_GET_CC_MEMSET`
unfoldable pub get_datasize : ℕ → DataWidth
get_datasize size = if size == 0 then byte else if size == 1 then halfword else word

unfoldable pub get_cc_am : ℕ → AddressingMode
get_cc_am s =
    if s == 0
    then fixed_am
    else if s == 1
    then incremented_am
    else if s == 2
    then ubs_am
    else ubs_ds_am

unfoldable pub get_cc_memset : ℕ → MemSet
get_cc_memset m = if m == 0 then normal_mode else hw_mode
