-- ===== src/Xdmac/Driver/Cycle/Steps.antt =====
-- The operations of src/Xdmac/xdmad.c on a channel that is ready for them.
use taste_samv71_rtems_runti.Common.{
  ℕ, ◌≤◌, ◌<◌, ◌≡◌, true, false, some, arith, ltb, leb, ◌==◌, if◌then◌else◌, u8, none, modify,
}
use taste_samv71_rtems_runti.Xdmac.Channels.{free, start, done, Xdmad, ok, free_channel}
use taste_samv71_rtems_runti.Xdmac.Registers.{global, ge}
use taste_samv71_rtems_runti.Xdmac.Registers.Device.{Device}
use taste_samv71_rtems_runti.Xdmac.Registers.Global.{channel_bit, enable_git, enable_channel}
use taste_samv71_rtems_runti.Xdmac.Driver.{Board, Node, state_of, set_state}
use taste_samv71_rtems_runti.Xdmac.Driver.Setup.{refuse_callback, set_callback}
use taste_samv71_rtems_runti.Xdmac.Driver.Transfer.{refuse, start_transfer}
use taste_samv71_rtems_runti.Xdmac.Driver.Handler.{clean, is_transfer_done}

module _ (dev : Device) (board : Board) (invoke : ℕ → ℕ → ℕ → Node dev board → Node dev board) where
  -- The start of a transfer on a channel that is neither free nor started
  abbrev pub started : ℕ → Node dev board → Node dev board
  started i n = record n {
    xdmad = set_state i start n.xdmad;
    device =
        let s = dev.write (global ge) (channel_bit i) n.device in
        if n.xdmad.polling_mode == 0 then enable_git dev i s else s;
  }

  pub start_transfer_lem :
      (i : ℕ) (n : Node dev board)
      → i < n.xdmad.num_channels
      → n.xdmad.num_channels ≤ 24
      → refuse (state_of n.xdmad i) ≡ none
      → start_transfer dev board i n ≡ some (started i n, ok)
  unfolding start_transfer enable_channel
  start_transfer_lem i n exists few ready =
      let known : leb n.xdmad.num_channels i ≡ false = ground arith in
      let inside : ltb i 24 ≡ true = ground arith in
      let same : u8 i ≡ i = omega arith in simp (same, known, inside, ready)

  pub is_transfer_done-done :
      (i : ℕ) (n : Node dev board)
      → i < n.xdmad.num_channels
      → n.xdmad.num_channels ≤ 24
      → state_of n.xdmad i ≡ done
      → is_transfer_done dev board invoke i n ≡ some (clean dev board invoke n, ok)
  unfolding is_transfer_done
  is_transfer_done-done i n exists few over =
      let known : leb n.xdmad.num_channels i ≡ false = ground arith in
      let same : u8 i ≡ i = omega arith in simp (same, known, over)

pub free_channel-done :
    (i : ℕ) (x : Xdmad)
    → i < x.num_channels
    → x.num_channels ≤ 24
    → state_of x i ≡ done
    → free_channel i x ≡ (set_state i free x, ok)
unfolding free_channel
free_channel-done i x exists few over =
    let known : leb x.num_channels i ≡ false = ground arith in
    let same : u8 i ≡ i = omega arith in simp (same, known, over)

-- The instance with a callback set
abbrev pub with_callback : ℕ → ℕ → ℕ → Xdmad → Xdmad
with_callback i callback arg x = record x {
  channels = modify x.channels i (λ c. record c { callback = callback; arg = arg });
}

pub set_callback-ready :
    (i callback arg : ℕ) (x : Xdmad)
    → i < x.num_channels
    → x.num_channels ≤ 24
    → refuse_callback (state_of x i) ≡ none
    → set_callback i callback arg x ≡ (with_callback i callback arg x, ok)
unfolding set_callback
set_callback-ready i callback arg x exists few ready =
    let known : leb x.num_channels i ≡ false = ground arith in
    let same : u8 i ≡ i = omega arith in simp (same, known, ready)
