-- ===== src/Xdmac/Registers/Config/Digits.antt =====
-- The value of each field of the channel configuration is a digit of the field's width at its place.
use taste_samv71_rtems_runti.Common.{ℕ, ◌*◌, ◌%◌, ◌^◌, ◌<◌, ◌≡◌, refl, arith}
use taste_samv71_rtems_runti.Common.Masks.{mask_7}
use taste_samv71_rtems_runti.Xdmac.Registers.Config.{
  TransferType, mem_tran, per_tran, BurstSize, single, four, eight, sixteen, Synchronization,
  per2mem, mem2per, Protection, sec, unsec, SoftwareRequest, hwr_connected, swr_connected, MemSet,
  normal_mode, hw_mode, ChunkSize, chk_1, chk_2, chk_4, chk_8, chk_16, DataWidth, byte, halfword,
  word, BusInterface, ahb_if0, ahb_if1, AddressingMode, fixed_am, incremented_am, ubs_am, ubs_ds_am,
  transfer_type, mbsize, dsync, prot, swreq, memset, csize, dwidth, sif, dif, sam, dam, perid,
}

-- The value of a field is a digit of its width at its place.
abbrev pub Digit : ℕ → ℕ → ℕ → Type 0
Digit p size v = (d : ℕ) × (d < size) × (v ≡ d * 2 ^ p)

pub transfer_type-Digit : (v : TransferType) → Digit 0 2 (transfer_type v)
unfolding transfer_type
transfer_type-Digit mem_tran = (0, omega arith, refl)
transfer_type-Digit per_tran = (1, omega arith, refl)

pub mbsize-Digit : (v : BurstSize) → Digit 1 4 (mbsize v)
unfolding mbsize
mbsize-Digit single = (0, omega arith, refl)
mbsize-Digit four = (1, omega arith, refl)
mbsize-Digit eight = (2, omega arith, refl)
mbsize-Digit sixteen = (3, omega arith, refl)

pub dsync-Digit : (v : Synchronization) → Digit 4 2 (dsync v)
unfolding dsync
dsync-Digit per2mem = (0, omega arith, refl)
dsync-Digit mem2per = (1, omega arith, refl)

pub prot-Digit : (v : Protection) → Digit 5 2 (prot v)
unfolding prot
prot-Digit sec = (0, omega arith, refl)
prot-Digit unsec = (1, omega arith, refl)

pub swreq-Digit : (v : SoftwareRequest) → Digit 6 2 (swreq v)
unfolding swreq
swreq-Digit hwr_connected = (0, omega arith, refl)
swreq-Digit swr_connected = (1, omega arith, refl)

pub memset-Digit : (v : MemSet) → Digit 7 2 (memset v)
unfolding memset
memset-Digit normal_mode = (0, omega arith, refl)
memset-Digit hw_mode = (1, omega arith, refl)

pub csize-Digit : (v : ChunkSize) → Digit 8 8 (csize v)
unfolding csize
csize-Digit chk_1 = (0, omega arith, refl)
csize-Digit chk_2 = (1, omega arith, refl)
csize-Digit chk_4 = (2, omega arith, refl)
csize-Digit chk_8 = (3, omega arith, refl)
csize-Digit chk_16 = (4, omega arith, refl)

pub dwidth-Digit : (v : DataWidth) → Digit 11 4 (dwidth v)
unfolding dwidth
dwidth-Digit byte = (0, omega arith, refl)
dwidth-Digit halfword = (1, omega arith, refl)
dwidth-Digit word = (2, omega arith, refl)

pub sif-Digit : (v : BusInterface) → Digit 13 2 (sif v)
unfolding sif
sif-Digit ahb_if0 = (0, omega arith, refl)
sif-Digit ahb_if1 = (1, omega arith, refl)

pub dif-Digit : (v : BusInterface) → Digit 14 2 (dif v)
unfolding dif
dif-Digit ahb_if0 = (0, omega arith, refl)
dif-Digit ahb_if1 = (1, omega arith, refl)

pub sam-Digit : (v : AddressingMode) → Digit 16 4 (sam v)
unfolding sam
sam-Digit fixed_am = (0, omega arith, refl)
sam-Digit incremented_am = (1, omega arith, refl)
sam-Digit ubs_am = (2, omega arith, refl)
sam-Digit ubs_ds_am = (3, omega arith, refl)

pub dam-Digit : (v : AddressingMode) → Digit 18 4 (dam v)
unfolding dam
dam-Digit fixed_am = (0, omega arith, refl)
dam-Digit incremented_am = (1, omega arith, refl)
dam-Digit ubs_am = (2, omega arith, refl)
dam-Digit ubs_ds_am = (3, omega arith, refl)

pub perid-Digit : (v : ℕ) → Digit 24 128 (perid v)
unfolding perid
perid-Digit v = (v % 128, omega arith, omega (arith, mask_7 24 (v * 2 ^ 24)))
