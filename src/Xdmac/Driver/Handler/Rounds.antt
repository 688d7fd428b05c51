-- ===== src/Xdmac/Driver/Handler/Rounds.antt =====
-- The loop of the interrupt handler never runs out of rounds.
use taste_samv71_rtems_runti.Common.{
  ℕ, zero, suc, ◌+◌, ◌≤◌, ◌≡◌, refl, ◌∙◌, Bool, true, leb, Bool-cases, inl, inr, arith,
}
use taste_samv71_rtems_runti.Common.Options.{Option-cases}
use taste_samv71_rtems_runti.Xdmac.Registers.Device.{Device}
use taste_samv71_rtems_runti.Xdmac.Driver.{Board, Node}
use taste_samv71_rtems_runti.Xdmac.Driver.Handler.{returned, continued, handle_channel, handle_from}
use taste_samv71_rtems_runti.Xdmac.Driver.Handler.Kept.{handle_channel-Runs}

module _ (dev : Device) (board : Board) (invoke : ℕ → ℕ → ℕ → Node dev board → Node dev board)
    (keeps : (callback i arg : ℕ) (n : Node dev board)
      → (invoke callback i arg n).xdmad.num_channels ≡ n.xdmad.num_channels)
    (interrupts running : ℕ) where
  -- When callbacks keep the number of channels, rounds beyond it change nothing: the loop ends by its
  -- own test or by a return.
  pub handle_from-enough :
      (rounds more i : ℕ) (n : Node dev board) (exec : Bool)
      → n.xdmad.num_channels ≤ i + rounds
      → handle_from dev board invoke interrupts running i (rounds + more) n exec
        ≡ handle_from dev board invoke interrupts running i rounds n exec
  unfolding handle_from
  handle_from-enough zero zero i n exec h = refl
  handle_from-enough zero (suc more) i n exec h =
      let past : leb n.xdmad.num_channels i ≡ true = ground arith in
      let total : 0 + suc more ≡ suc more = omega arith in rw total (simp past)
  handle_from-enough (suc rounds) more i n exec h =
      let total : suc rounds + more ≡ suc (rounds + more) = omega arith in
      rw total (elim (Bool-cases (leb n.xdmad.num_channels i)) [
        | inl past ↦ simp past
        | inr inside ↦
            elim (Option-cases (handle_channel dev board invoke interrupts running i n exec)) [
              | inl failed ↦ simp (inside, failed)
              | inr (returned n', run) ↦ simp (inside, run)
              | inr (continued n' exec', run) ↦
                  let kept : n'.xdmad.num_channels ≡ n.xdmad.num_channels =
                    handle_channel-Runs dev board invoke (λ x y. y.num_channels ≡ x.num_channels)
                      (λ x. refl) (λ x y z p q. q ∙ p) (λ x i' used. refl) keeps interrupts running
                      i n exec (continued n' exec') run in
                  simp (inside, run) (handle_from-enough rounds more (i + 1) n' exec' (omega arith))
            ]
      ])
