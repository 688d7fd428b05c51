-- ===== src/Xdmac/Driver/Handler/Single.antt =====
-- An interrupt of one channel, from the entry of the handler to its return.
use taste_samv71_rtems_runti.Common.{
  ℕ, suc, ◌+◌, ◌-◌, ◌^◌, ◌<◌, ◌≤◌, ◌≡◌, ◌≢◌, ◌∙◌, Bool, true, false, some, leb, get_or,
  get_or-modify_self, get_or-modify_ne, length, u8, arith,
}
use taste_samv71_rtems_runti.Common.Powers.{
  bit_and-pow_self, bit_and-pow_ne, bit_and-pow_mask, pow_positive,
}
use taste_samv71_rtems_runti.Xdmac.Registers.{global, gis, gs}
use taste_samv71_rtems_runti.Xdmac.Registers.Device.{Device}
use taste_samv71_rtems_runti.Xdmac.Registers.Global.{get_gisr, get_global_ch_status}
use taste_samv71_rtems_runti.Xdmac.Channels.{done, blank, is_free, ok}
use taste_samv71_rtems_runti.Xdmac.Driver.{Board, Node, state_of}
use taste_samv71_rtems_runti.Xdmac.Driver.Handler.{
  has, continued, clean, handle_channel, handle_from, handler, is_transfer_done,
}
use taste_samv71_rtems_runti.Xdmac.Driver.Handler.Finish.{
  Ends, finished, called, handle_from-skip, handle_from-quiet, handle_channel-ends,
}

has-pow_self : (i : ℕ) → has (2 ^ i) (2 ^ i) ≡ true
has-pow_self i = let set = bit_and-pow_self i in let some_bit = pow_positive i in ground arith

has-pow_ne : (i j : ℕ) → i ≢ j → has (2 ^ i) (2 ^ j) ≡ false
has-pow_ne i j ne = let clear = bit_and-pow_ne i j ne in ground arith

has-pow_mask : (i : ℕ) → i < 24 → has (2 ^ i) 0xff_ffff ≡ true
has-pow_mask i h =
    let kept = bit_and-pow_mask i 24 h in let some_bit = pow_positive i in ground arith

module _ (dev : Device) (board : Board) (invoke : ℕ → ℕ → ℕ → Node dev board → Node dev board)
    (i : ℕ) (n : Node dev board) where
  -- The node after the two global status words are read
  abbrev pub noticed : Node dev board
  noticed = record n { device = (dev.read (global gs) (dev.read (global gis) n.device).1).1 }

  abbrev pub running : ℕ
  running = (dev.read (global gs) (dev.read (global gis) n.device).1).0

  handle_from-single :
      (rounds : ℕ) (n' : Node dev board) (exec : Bool)
      → i < rounds
      → i < n.xdmad.num_channels
      → handle_channel dev board invoke (2 ^ i) running i noticed false ≡ some (continued n' exec)
      → handle_from dev board invoke (2 ^ i) running 0 rounds noticed false ≡ some n'
  unfolding handle_from
  handle_from-single rounds n' exec enough exists run =
      let count : rounds ≡ i + suc (rounds - suc i) = omega arith in
      let start : 0 + i ≡ i = omega arith in
      let more : leb n.xdmad.num_channels i ≡ false = ground arith in
      rw count (
        handle_from-skip dev board invoke (2 ^ i) running i (suc (rounds - suc i)) 0 noticed false
          (omega arith) (λ j p q. has-pow_ne i j (λ e. omega arith))
        ∙ rw start (
            simp (more, run)
              (handle_from-quiet dev board invoke (2 ^ i) running (rounds - suc i) (0 + i + 1) n'
                exec (λ j p. has-pow_ne i j (λ e. omega arith)))))

  -- One channel has raised the interrupt, is in use, is stopped and reports its end. Then the handler
  -- returns after it has made the channel done, kept all others and, if the channel has a callback,
  -- called it once on that state. On that state a query for the end of the transfer answers that it is
  -- over.
  pub handler-single :
      (j : ℕ)
      → i ≢ j
      → i < n.xdmad.num_channels
      → n.xdmad.num_channels ≤ 24
      → n.xdmad.num_channels ≤ length n.xdmad.channels
      → (dev.read (global gis) n.device).0 ≡ 2 ^ i
      → has running (2 ^ i) ≡ false
      → is_free (state_of n.xdmad i) ≡ false
      → Ends dev board invoke i noticed
      → (handler dev board invoke n ≡ some (called dev board invoke i noticed))
        × (get_or (finished dev board invoke i noticed).xdmad.channels i blank
            ≡ record (get_or n.xdmad.channels i blank) { state = done })
        × (get_or (finished dev board invoke i noticed).xdmad.channels j blank
            ≡ get_or n.xdmad.channels j blank)
        × (is_transfer_done dev board invoke i (finished dev board invoke i noticed)
            ≡ some (clean dev board invoke (finished dev board invoke i noticed), ok))
  unfolding handler is_transfer_done get_gisr get_global_ch_status
  handler-single j ne exists few room raised stopped in_use ends =
      let run =
        handle_channel-ends dev board invoke i noticed (2 ^ i) running false (omega arith)
          (omega arith) (has-pow_self i) stopped in_use ends in
      let loop =
        handle_from-single 32 (called dev board invoke i noticed) true (omega arith) exists run in
      let kept =
        get_or-modify_self n.xdmad.channels i (λ c. record c { state = done }) blank
          (omega arith) in
      let same : u8 i ≡ i = omega arith in
      let known : leb n.xdmad.num_channels i ≡ false = ground arith in
      (
        rw raised (simp (has-pow_mask i (omega arith), loop)),
        kept,
        get_or-modify_ne n.xdmad.channels i j _ blank ne,
        rw same (simp (known, kept)),
      )
