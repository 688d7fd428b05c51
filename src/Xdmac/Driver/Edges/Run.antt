-- ===== src/Xdmac/Driver/Edges/Run.antt =====
-- Sequences of operations and interrupts in any order.
use taste_samv71_rtems_runti.Common.{ℕ, ◌≡◌, ◌≢◌, ◌⊎◌, inl, inr, refl, true, false, Bool-cases}
use taste_samv71_rtems_runti.Xdmac.Table.{Peripheral}
use taste_samv71_rtems_runti.Xdmac.Registers.Device.{Device}
use taste_samv71_rtems_runti.Xdmac.Channels.{State, in_xfr, done, halted, is_free, Xdmad}
use taste_samv71_rtems_runti.Xdmac.Driver.{Board, state_of}
use taste_samv71_rtems_runti.Xdmac.Driver.Edges.{
  Edge, stays, allocates, starts_allocated, starts_in_xfr, starts_done, starts_halted,
  finishes_allocated, finishes_start, finishes_in_xfr, finishes_halted, halts, releases_done,
  releases_halted,
}
use taste_samv71_rtems_runti.Xdmac.Driver.Edges.Operations.{Step, Step-Moves}

Edge-free :
    (s t : State) → Edge s t → is_free s ≡ false → is_free t ≡ true → (s ≡ done) ⊎ (s ≡ halted)
Edge-free _ _ (stays s) used unused = absurd (cc)
Edge-free _ _ allocates used unused = absurd (cc)
Edge-free _ _ starts_allocated used unused = absurd (cc)
Edge-free _ _ starts_in_xfr used unused = absurd (cc)
Edge-free _ _ starts_done used unused = absurd (cc)
Edge-free _ _ starts_halted used unused = absurd (cc)
Edge-free _ _ finishes_allocated used unused = absurd (cc)
Edge-free _ _ finishes_start used unused = absurd (cc)
Edge-free _ _ finishes_in_xfr used unused = absurd (cc)
Edge-free _ _ finishes_halted used unused = absurd (cc)
Edge-free _ _ (halts s) used unused = absurd (cc)
Edge-free _ _ releases_done used unused = inl refl
Edge-free _ _ releases_halted used unused = inr refl

Edge-in_xfr : (s t : State) → Edge s t → s ≢ in_xfr → t ≢ in_xfr
Edge-in_xfr _ _ (stays s) h e = h e
Edge-in_xfr _ _ allocates h e = cc
Edge-in_xfr _ _ starts_allocated h e = cc
Edge-in_xfr _ _ starts_in_xfr h e = cc
Edge-in_xfr _ _ starts_done h e = cc
Edge-in_xfr _ _ starts_halted h e = cc
Edge-in_xfr _ _ finishes_allocated h e = cc
Edge-in_xfr _ _ finishes_start h e = cc
Edge-in_xfr _ _ finishes_in_xfr h e = cc
Edge-in_xfr _ _ finishes_halted h e = cc
Edge-in_xfr _ _ (halts s) h e = cc
Edge-in_xfr _ _ releases_done h e = cc
Edge-in_xfr _ _ releases_halted h e = cc

module _ (dev : Device) (board : Board) (periph_id : Peripheral → ℕ) (xdmac_type : ℕ) where
  pub data Steps : Xdmad → Xdmad → Type 0 where
    rests : (x : Xdmad) → Steps x x
    goes : (x y z : Xdmad) → Step dev board periph_id xdmac_type x y → Steps y z → Steps x z

  pub join : (x y z : Xdmad) → Steps x y → Steps y z → Steps x z
  join _ _ z (rests x) q = q
  join _ y z (goes x x₁ _ s p) q = goes x x₁ z s (join x₁ y z p q)

  -- No sequence puts a channel into the state `XDMAD_STATE_IN_XFR`.
  pub Steps-never_in_xfr :
      (x x' : Xdmad) (j : ℕ) → Steps x x' → state_of x j ≢ in_xfr → state_of x' j ≢ in_xfr
  Steps-never_in_xfr x _ j (rests _) h = h
  Steps-never_in_xfr x x' j (goes _ y _ s p) h = Steps-never_in_xfr y x' j p (
      Edge-in_xfr (state_of x j) (state_of y j) (Step-Moves dev board periph_id xdmac_type x y s j)
        h)

  -- In any sequence of operations and ends of transfers after which a channel that was in use is free,
  -- there is a moment at which its transfer is done or halted: a channel in use is never given out
  -- again before.
  pub Steps-freed :
      (x x' : Xdmad) (j : ℕ)
      → Steps x x'
      → is_free (state_of x j) ≡ false
      → is_free (state_of x' j) ≡ true
      → (y : Xdmad) × Steps x y × Steps y x' × ((state_of y j ≡ done) ⊎ (state_of y j ≡ halted))
  Steps-freed x _ j (rests _) used unused = absurd (cc)
  Steps-freed x x' j (goes _ y _ s p) used unused =
      let edge = Step-Moves dev board periph_id xdmac_type x y s j in
      elim (Bool-cases (is_free (state_of y j))) [
        | inl freed ↦
            (x, rests x, goes x y x' s p, Edge-free (state_of x j) (state_of y j) edge used freed)
        | inr still ↦
            let (z, before, after, ended) = Steps-freed y x' j p still unused in
            (z, goes x y z s before, after, ended)
      ]
