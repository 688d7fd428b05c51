-- ===== src/Xdmac/Driver/Handler/Served.antt =====
-- The channels after the handler has served a set of them.
use native.Mathlib.Decide.{ℕ_discrete}
use taste_samv71_rtems_runti.Common.{
  ℕ, zero, suc, ◌+◌, ◌^◌, ◌<◌, ◌≤◌, ◌≡◌, ◌≢◌, refl, sym, ◌∙◌, ap, true, if◌then◌else◌, ◌==◌, get_or,
  get_or-modify_self, get_or-modify_ne, length, length-modify, arith, Bool-cases, inl, inr,
}
use taste_samv71_rtems_runti.Xdmac.Registers.Device.{Device}
use taste_samv71_rtems_runti.Xdmac.Channels.{Channel, done, blank}
use taste_samv71_rtems_runti.Xdmac.Driver.{Board, Node, set_state}
use taste_samv71_rtems_runti.Xdmac.Driver.Handler.{has}
use taste_samv71_rtems_runti.Xdmac.Driver.Handler.Finish.{Ends, finished, called}

module _ (dev : Device) (board : Board) (invoke : ℕ → ℕ → ℕ → Node dev board → Node dev board)
    (interrupts : ℕ) where
  -- What is expected at channel i: its transfer ends, if it has raised the interrupt.
  abbrev pub served : ℕ → Node dev board → Node dev board
  served i n = if has interrupts (2 ^ i) then called dev board invoke i n else n

  -- The same for the `count` channels from i on, in ascending order
  unfoldable pub serve : ℕ → ℕ → Node dev board → Node dev board
  serve i zero n = n
  serve i (suc count) n = serve (i + 1) count (served i n)

  -- Each channel that has raised the interrupt reports its end when its turn comes.
  unfoldable pub AllEnd : ℕ → ℕ → Node dev board → Type 0
  AllEnd i zero n = Unit {0}
  AllEnd i (suc count) n =
      (has interrupts (2 ^ i) ≡ true → Ends dev board invoke i n)
      × AllEnd (i + 1) count (served i n)

  module _
      (keeps : (callback i arg : ℕ) (n : Node dev board)
        → (invoke callback i arg n).xdmad ≡ n.xdmad) where
    called-instance :
        (i : ℕ) (n : Node dev board)
        → (called dev board invoke i n).xdmad ≡ set_state i done n.xdmad
    called-instance i n = elim (Bool-cases ((get_or n.xdmad.channels i blank).callback == 0)) [
      | inl null ↦ rw null refl
      | inr set ↦ rw set (keeps _ i _ (finished dev board invoke i n))
    ]

    pub served-other :
        (i j : ℕ) (n : Node dev board)
        → i ≢ j
        → get_or (served i n).xdmad.channels j blank ≡ get_or n.xdmad.channels j blank
    served-other i j n ne = elim (Bool-cases (has interrupts (2 ^ i))) [
      | inl raised ↦
          rw (raised, called-instance i n) (get_or-modify_ne n.xdmad.channels i j _ blank ne)
      | inr quiet ↦ rw quiet refl
    ]

    served_self :
        (i : ℕ) (n : Node dev board)
        → i < length n.xdmad.channels
        → get_or (served i n).xdmad.channels i blank ≡ (
            if has interrupts (2 ^ i)
            then record (get_or n.xdmad.channels i blank) { state = done }
            else get_or n.xdmad.channels i blank)
    served_self i n room = elim (Bool-cases (has interrupts (2 ^ i))) [
      | inl raised ↦
          rw (raised, called-instance i n) (get_or-modify_self n.xdmad.channels i _ blank room)
      | inr quiet ↦ rw quiet refl
    ]

    pub served-size :
        (i : ℕ) (n : Node dev board)
        → ((served i n).xdmad.num_channels ≡ n.xdmad.num_channels)
          × (length (served i n).xdmad.channels ≡ length n.xdmad.channels)
    served-size i n = elim (Bool-cases (has interrupts (2 ^ i))) [
      | inl raised ↦ rw (raised, called-instance i n) (refl, length-modify n.xdmad.channels i _)
      | inr quiet ↦ rw quiet (refl, refl)
    ]

    serve-below :
        (count i j : ℕ) (n : Node dev board)
        → j < i
        → get_or (serve i count n).xdmad.channels j blank ≡ get_or n.xdmad.channels j blank
    unfolding serve
    serve-below zero i j n h = refl
    serve-below (suc count) i j n h =
        serve-below count (i + 1) j (served i n) (omega arith)
        ∙ served-other i j n (λ e. omega arith)

    pub serve-channel :
        (count i j : ℕ) (n : Node dev board)
        → i ≤ j
        → j < i + count
        → i + count ≤ length n.xdmad.channels
        → get_or (serve i count n).xdmad.channels j blank ≡ (
            if has interrupts (2 ^ j)
            then record (get_or n.xdmad.channels j blank) { state = done }
            else get_or n.xdmad.channels j blank)
    unfolding serve
    serve-channel zero i j n low high room = absurd (omega arith)
    serve-channel (suc count) i j n low high room =
        let sized = served-size i n in
        elim (ℕ_discrete i j) [
          | yes e ↦ rw (sym e) (
              serve-below count (i + 1) i (served i n) (omega arith)
              ∙ served_self i n (omega arith))
          | no ne ↦
              serve-channel count (i + 1) j (served i n) (omega arith) (omega arith)
                (omega (arith, sized.1))
              ∙ ap
                  (λ (c : Channel). if has interrupts (2 ^ j) then record c { state = done } else c)
                  (served-other i j n ne)
        ]
