-- ===== src/Xdmac/Driver/Handler/Several.antt =====
-- An interrupt of any set of channels, from the entry of the handler to its return.
use taste_samv71_rtems_runti.Common.{
  ℕ, zero, suc, ◌+◌, ◌^◌, ◌<◌, ◌≤◌, ◌≡◌, refl, ◌∙◌, ap, Bool, true, false, some, if◌then◌else◌, leb,
  get_or, length, arith, Bool-cases, inl, inr,
}
use taste_samv71_rtems_runti.Xdmac.Registers.{global, gis}
use taste_samv71_rtems_runti.Xdmac.Registers.Device.{Device}
use taste_samv71_rtems_runti.Xdmac.Registers.Global.{get_gisr, get_global_ch_status}
use taste_samv71_rtems_runti.Xdmac.Channels.{Channel, done, blank, is_free}
use taste_samv71_rtems_runti.Xdmac.Driver.{Board, Node, state_of}
use taste_samv71_rtems_runti.Xdmac.Driver.Handler.{
  has, continued, handle_channel, handle_from, handler,
}
use taste_samv71_rtems_runti.Xdmac.Driver.Handler.Finish.{handle_channel-ends}
use taste_samv71_rtems_runti.Xdmac.Driver.Handler.Single.{noticed, running}
use taste_samv71_rtems_runti.Xdmac.Driver.Handler.Served.{
  served, serve, AllEnd, served-other, served-size, serve-channel,
}

module _ (dev : Device) (board : Board) (invoke : ℕ → ℕ → ℕ → Node dev board → Node dev board)
    (interrupts : ℕ) where
  handle_channel-quiet :
      (i : ℕ) (n : Node dev board) (word : ℕ) (exec : Bool)
      → has interrupts (2 ^ i) ≡ false
      → handle_channel dev board invoke interrupts word i n exec ≡ some (continued n exec)
  unfolding handle_channel
  handle_channel-quiet i n word exec quiet = simp quiet

  module _
      (keeps : (callback i arg : ℕ) (n : Node dev board)
        → (invoke callback i arg n).xdmad ≡ n.xdmad) where
    -- What the loop needs of channel i and those behind it
    abbrev Waits : ℕ → ℕ → Node dev board → Type 0
    Waits word i n =
        (j : ℕ)
        → i ≤ j
        → j < n.xdmad.num_channels
        → has interrupts (2 ^ j) ≡ true
        → (is_free (state_of n.xdmad j) ≡ false) × (has word (2 ^ j) ≡ false)

    served-Waits :
        (word i : ℕ) (n : Node dev board)
        → Waits word i n
        → Waits word (i + 1) (served dev board invoke interrupts i n)
    served-Waits word i n waits j low exists raised =
        let counted = (served-size dev board invoke interrupts keeps i n).0 in
        let (in_use, stopped) = waits j (omega arith) (omega arith) raised in
        (
          ap (λ (c : Channel). is_free c.state)
                (served-other dev board invoke interrupts keeps i j n (λ e. omega arith))
              ∙ in_use,
          stopped,
        )

    handle_from-serve :
        (word count i rounds : ℕ) (n : Node dev board) (exec : Bool)
        → i + count ≡ n.xdmad.num_channels
        → count ≤ rounds
        → n.xdmad.num_channels ≤ 24
        → n.xdmad.num_channels ≤ length n.xdmad.channels
        → Waits word i n
        → AllEnd dev board invoke interrupts i count n
        → handle_from dev board invoke interrupts word i rounds n exec
          ≡ some (serve dev board invoke interrupts i count n)
    unfolding handle_from serve AllEnd
    handle_from-serve word zero i zero n exec all enough few room waits ends = refl
    handle_from-serve word zero i (suc rounds) n exec all enough few room waits ends =
        let past : leb n.xdmad.num_channels i ≡ true = ground arith in simp past
    handle_from-serve word (suc count) i zero n exec all enough few room waits ends =
        absurd (omega arith)
    handle_from-serve word (suc count) i (suc rounds) n exec all enough few room waits (end, ends) =
        let more : leb n.xdmad.num_channels i ≡ false = ground arith in
        let (counted, sized) = served-size dev board invoke interrupts keeps i n in
        let rest = λ (flag : Bool).
          handle_from-serve word count (i + 1) rounds (served dev board invoke interrupts i n) flag
            (omega arith) (omega arith) (omega arith) (omega arith) (served-Waits word i n waits)
            ends in
        elim (Bool-cases (has interrupts (2 ^ i))) [
          | inl raised ↦
              let (in_use, stopped) = waits i (omega arith) (omega arith) raised in
              let run =
                handle_channel-ends dev board invoke i n interrupts word exec (omega arith)
                  (omega arith) raised stopped in_use (end raised) in
              let later = rw raised at (rest true) in simp (more, run, raised, later)
          | inr quiet ↦
              let later = rw quiet at (rest exec) in
              simp (more, handle_channel-quiet i n word exec quiet, quiet, later)
        ]

module _ (dev : Device) (board : Board) (invoke : ℕ → ℕ → ℕ → Node dev board → Node dev board)
    (n : Node dev board) where
  abbrev pub raised_word : ℕ
  raised_word = (dev.read (global gis) n.device).0

  abbrev pub all_served : Node dev board
  all_served =
      serve dev board invoke raised_word 0 n.xdmad.num_channels (noticed dev board invoke 0 n)

  -- Any set of channels, not empty, has raised the interrupt; each of them is in use and stopped and
  -- reports its end when its turn comes, and callbacks keep the driver's instance. Then the handler
  -- returns, and has served each of these channels once, in ascending order, and no other: at the end
  -- each of them is done, whatever the callbacks of the others did to the controller, and every other
  -- channel is as before.
  pub handler-serve :
      (j : ℕ)
      → ((callback i arg : ℕ) (m : Node dev board) → (invoke callback i arg m).xdmad ≡ m.xdmad)
      → has raised_word 0xff_ffff ≡ true
      → ((i : ℕ)
          → i < n.xdmad.num_channels
          → has raised_word (2 ^ i) ≡ true
          → (is_free (state_of n.xdmad i) ≡ false)
            × (has (running dev board invoke 0 n) (2 ^ i) ≡ false))
      → AllEnd dev board invoke raised_word 0 n.xdmad.num_channels (noticed dev board invoke 0 n)
      → n.xdmad.num_channels ≤ 24
      → n.xdmad.num_channels ≤ length n.xdmad.channels
      → j < n.xdmad.num_channels
      → (handler dev board invoke n ≡ some all_served)
        × (get_or all_served.xdmad.channels j blank ≡ (
            if has raised_word (2 ^ j)
            then record (get_or n.xdmad.channels j blank) { state = done }
            else get_or n.xdmad.channels j blank))
  unfolding handler get_gisr get_global_ch_status
  handler-serve j keeps some_raised waits ends few room exists =
      let start = noticed dev board invoke 0 n in
      let loop =
        handle_from-serve dev board invoke raised_word keeps (running dev board invoke 0 n)
          n.xdmad.num_channels 0 32 start false (omega arith) (omega arith) few room
          (λ i low below raised. waits i below raised) ends in
      (
        simp (some_raised, loop),
        serve-channel dev board invoke raised_word keeps n.xdmad.num_channels 0 j start
            (omega arith) (omega arith) (omega arith),
      )
