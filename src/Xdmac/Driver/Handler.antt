-- ===== src/Xdmac/Driver/Handler.antt =====
-- `XDMAD_Handler` and `XDMAD_IsTransferDone`. A callback is run by the system: it may change everything,
-- the driver's instance included. A call through a null callback is `none`, as a failed assertion. The
-- two counters of calls, which nothing reads, are left out.
pub mod Callbacks
pub mod Finish
pub mod Single
pub mod Kept
pub mod Rounds
pub mod Returned
pub mod Served
pub mod Several
mod Tests
use taste_samv71_rtems_runti.Common.{
  ℕ, zero, suc, ◌+◌, ◌^◌, Bool, true, false, not, Option, none, some, if◌then◌else◌, ◌&&◌, ◌||◌,
  leb, ◌==◌, get_or, bit_and, u8,
}
use taste_samv71_rtems_runti.Common.Options.{◌>>=◌}
use taste_samv71_rtems_runti.Xdmac.Registers.Device.{Device}
use taste_samv71_rtems_runti.Xdmac.Registers.Global.{get_gisr, get_global_ch_status}
use taste_samv71_rtems_runti.Xdmac.Registers.Channel.{
  get_channel_it_mask, get_channel_isr, get_mask_channel_isr,
}
use taste_samv71_rtems_runti.Xdmac.Channels.{
  State, free, allocated, start, in_xfr, done, halted, is_free, ReturnCode, ok, busy, error, blank,
  Xdmad,
}
use taste_samv71_rtems_runti.Xdmac.Driver.{Board, Node, state_of, set_state}

-- Bits of a channel's status: end of block, of linked list, and of disable
abbrev pub cis_bis : ℕ
cis_bis = 1

abbrev pub cis_lis : ℕ
cis_lis = 2

abbrev pub cis_dis : ℕ
cis_dis = 4

-- `XDMAC_CIM_LIM`
abbrev pub cim_lim : ℕ
cim_lim = 2

abbrev pub has : ℕ → ℕ → Bool
has word bits = not (bit_and word bits == 0)

-- The answer of `XDMAD_IsTransferDone` by the channel's state, unless the transfer still runs
abbrev pub answer : State → Option ReturnCode
answer allocated = some ok
answer free = some error
answer done = some ok
answer start = none
answer in_xfr = none
answer halted = none

-- How the body of the loop ends: by the function's `return`, or with the flag `bExec`
pub data Next (A : Type 0) : Type 0 where
  returned : A → Next A
  continued : A → Bool → Next A

module _ (dev : Device) (board : Board) (invoke : ℕ → ℕ → ℕ → Node dev board → Node dev board) where
  -- The call of a channel's callback
  unfoldable pub call_back : ℕ → Node dev board → Option (Node dev board)
  call_back i n =
      let c = get_or n.xdmad.channels i blank in
      if c.callback == 0 then none else some (invoke c.callback i c.arg n)

  abbrev pub clean : Node dev board → Node dev board
  clean n = record n { world = board.disable_dcache n.world }

  -- Whether an end of block finishes the transfer: the interrupt mask is read only then.
  unfoldable pub is_last_block : ℕ → ℕ → dev.State → Option (Bool × dev.State)
  is_last_block i status s =
      if has status cis_bis
      then (get_channel_it_mask dev i s >>= λ (mask, s₁). some (not (has mask cim_lim), s₁))
      else some (false, s)

  -- The branch of a channel that the controller has stopped
  unfoldable pub finish : ℕ → Node dev board → Option (Node dev board × Bool)
  unfolding is_last_block
  finish i n = do
    (status, s₁) ← get_mask_channel_isr dev i n.device
    (last, s₂) ← is_last_block i status s₁
    let ended = last || has status cis_lis || has status cis_dis
    some (
      clean (record n { device = s₂; xdmad = if ended then set_state i done n.xdmad else n.xdmad }),
      ended,
    )

  -- The branch of a channel that still runs: a block of a linked list has ended.
  unfoldable pub block_end : ℕ → Node dev board → Option (Node dev board)
  unfolding call_back
  block_end i n = do
    (status, s₁) ← get_channel_isr dev i n.device
    let cleaned = clean (record n { device = s₁ })
    if has status cis_bis then call_back i cleaned else some cleaned

  -- The last lines of the body
  unfoldable pub execute : ℕ → Bool → Node dev board → Option (Node dev board)
  unfolding call_back
  execute i exec n =
      if exec && not ((get_or n.xdmad.channels i blank).callback == 0)
      then call_back i n
      else some n

  -- The body of the loop, by the two global status words that were read before it
  unfoldable pub handle_channel : ℕ → ℕ → ℕ → Node dev board → Bool → Option (Next (Node dev board))
  unfolding finish block_end execute
  handle_channel interrupts running i n exec =
      let stopped =
        finish i n >>= λ (n₁, ended). execute i ended n₁ >>= λ n₂. some (continued n₂ ended) in
      let runs = block_end i n >>= λ n₁. execute i exec n₁ >>= λ n₂. some (continued n₂ exec) in
      if not (has interrupts (2 ^ i))
      then some (continued n exec)
      else if is_free (state_of n.xdmad i)
      then some (returned n)
      else if has running (2 ^ i)
      then runs
      else stopped

  -- The loop from channel i on; the number of channels is read again in each round.
  unfoldable pub handle_from : ℕ → ℕ → ℕ → ℕ → Node dev board → Bool → Option (Node dev board)
  handle_from interrupts running i zero n exec = some n
  handle_from interrupts running i (suc rounds) n exec =
      if leb n.xdmad.num_channels i
      then some n
      else (handle_channel interrupts running i n exec >>= λ next. elim next [
        | returned n' ↦ some n'
        | continued n' exec' ↦ handle_from interrupts running (i + 1) rounds n' exec'
      ])

  -- There are at most 32 channels.
  unfoldable pub handler : Node dev board → Option (Node dev board)
  handler n =
      let (interrupts, s₁) = get_gisr dev n.device in
      let (running, s₂) = get_global_ch_status dev s₁ in
      if has interrupts 0xff_ffff
      then handle_from interrupts running 0 32 (record n { device = s₂ }) false
      else some (record n { device = s₁ })

  unfoldable pub is_transfer_done : ℕ → Node dev board → Option (Node dev board × ReturnCode)
  is_transfer_done channel n =
      let i = u8 channel in
      let cleaned = clean n in
      if leb n.xdmad.num_channels i then some (n, error) else elim (answer (state_of n.xdmad i)) [
        | some code ↦ some (cleaned, code)
        | none ↦
            if cleaned.xdmad.polling_mode == 0
            then some (cleaned, busy)
            else (handler cleaned >>= λ n'. some (n', busy))
      ]
