-- ===== src/Xdmac/Channels.antt =====
-- The channels of src/Xdmac/xdmad.c: allocation and release. The driver's
-- lock is a semaphore of RTEMS; a failed assertion is `none`.
pub mod Allocation
pub mod Sequence
mod Tests
use taste_samv71_rtems_runti.Common.{
  ℕ, zero, suc, ◌+◌, ◌%◌, Bool, true, false, not, Option, none, some, List, [], ◌∷◌, if◌then◌else◌,
  ◌&&◌, ◌||◌, ltb, leb, ◌==◌, get_or, modify, bit_and, u8,
}
use taste_samv71_rtems_runti.Rtems.{Rtems, is_successful}
use taste_samv71_rtems_runti.Xdmac.Table.{
  Peripheral, get_channel_number, is_validated_peripher_on_dma,
}

-- `eXdmadState`
pub data State : Type 0 where
  free allocated start in_xfr done halted : State

abbrev pub is_free : State → Bool
is_free free = true
is_free allocated = false
is_free start = false
is_free in_xfr = false
is_free done = false
is_free halted = false

-- `eXdmadRC`, as far as these operations return it
pub data ReturnCode : Type 0 where
  ok busy error : ReturnCode

-- `sXdmadChannel`; a callback is its address.
pub record Channel : Type 0 where
  pub callback : ℕ
  pub arg : ℕ
  pub irq_owner : ℕ
  pub src_periph_id : ℕ
  pub dst_periph_id : ℕ
  pub src_tx_if_id : ℕ
  pub src_rx_if_id : ℕ
  pub dst_tx_if_id : ℕ
  pub dst_rx_if_id : ℕ
  pub state : State

abbrev pub blank : Channel
blank = record {
  callback = 0;
  arg = 0;
  irq_owner = 0;
  src_periph_id = 0;
  dst_periph_id = 0;
  src_tx_if_id = 0;
  src_rx_if_id = 0;
  dst_tx_if_id = 0;
  dst_rx_if_id = 0;
  state = free;
}

abbrev pub transfer_memory : ℕ
transfer_memory = 0xff

abbrev pub alloc_failed : ℕ
alloc_failed = 0xffff

-- `sXdmad` without the pointer to the registers, which is always the same, and the two fields that
-- no code uses
pub record Xdmad : Type 0 where
  pub channels : List Channel
  pub num_controllers : ℕ
  pub num_channels : ℕ
  pub polling_mode : ℕ

module _ (periph_id : Peripheral → ℕ) (xdmac_type : ℕ) where
  unfoldable pub claim : ℕ → ℕ → Channel → Channel
  claim src dst c = record c {
    state = allocated;
    src_periph_id = src;
    dst_periph_id = dst;
    src_tx_if_id = get_channel_number periph_id xdmac_type src 0;
    src_rx_if_id = get_channel_number periph_id xdmac_type src 1;
    dst_tx_if_id = get_channel_number periph_id xdmac_type dst 0;
    dst_rx_if_id = get_channel_number periph_id xdmac_type dst 1;
  }

  -- The loop at channel i with `left` channels to go.
  unfoldable pub allocate_from : ℕ → ℕ → ℕ → ℕ → Xdmad → Xdmad × ℕ
  allocate_from src dst i zero x = (x, alloc_failed)
  allocate_from src dst i (suc left) x =
      let rest = allocate_from src dst (i + 1) left x in
      if is_free (get_or x.channels i blank).state
      then (record x { channels = modify x.channels i (claim src dst) }, u8 i)
      else rest

  -- The three tests of `XDMAD_AllocateXdmacChannel`
  unfoldable pub can_transfer : ℕ → ℕ → Bool
  can_transfer src dst =
      if not (src == transfer_memory) && not (dst == transfer_memory)
      then false
      else if dst == transfer_memory && not (is_validated_peripher_on_dma periph_id xdmac_type src)
      then false
      else not
          (src == transfer_memory && not (is_validated_peripher_on_dma periph_id xdmac_type dst))

  unfoldable pub allocate_xdmac_channel : ℕ → ℕ → Xdmad → Xdmad × ℕ
  unfolding allocate_from
  allocate_xdmac_channel src dst x =
      if can_transfer src dst then allocate_from src dst 0 x.num_channels x else (x, alloc_failed)

  -- The assertion is on the lock's identifier. A lock that is not obtained in time fails the call.
  unfoldable pub allocate_channel :
      (os : Rtems) → ℕ → ℕ → ℕ → Xdmad × os.World → Option (Xdmad × os.World × ℕ)
  unfolding allocate_xdmac_channel
  allocate_channel os xdmad_lock src dst (x, w) =
      let (status, w₁) = os.semaphore_obtain xdmad_lock w in
      let (x', channel) = allocate_xdmac_channel src dst x in
      if xdmad_lock == 0
      then none
      else if is_successful status
      then some (x', (os.semaphore_release xdmad_lock w₁).1, channel)
      else some (x, w₁, alloc_failed)

abbrev pub release : State → Option State
release allocated = none
release start = none
release in_xfr = none
release done = some free
release halted = some free
release free = some free

unfoldable pub free_channel : ℕ → Xdmad → Xdmad × ReturnCode
free_channel channel x =
    let i = u8 channel in
    if leb x.num_channels i then (x, error) else elim (release (get_or x.channels i blank).state) [
      | none ↦ (x, busy)
      | some s ↦ (record x { channels = modify x.channels i (λ c. record c { state = s }) }, ok)
    ]
