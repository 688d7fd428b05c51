-- ===== src/Xdmac/Driver/Edges.antt =====
-- The states of a channel as a machine: which changes of state the operations of src/Xdmac/xdmad.c make.
pub mod Operations
pub mod Run
pub mod Interrupt
mod Tests
use mathlib.Core.Option.{some_inj}
use taste_samv71_rtems_runti.Common.{
  ℕ, ◌≡◌, ◌≢◌, inl, inr, refl, sym, true, false, Option, none, some, get_or, modify,
  get_or-modify_cases, arith,
}
use taste_samv71_rtems_runti.Xdmac.Channels.{
  State, free, allocated, start, in_xfr, done, halted, is_free, Channel, blank, Xdmad, release,
}
use taste_samv71_rtems_runti.Xdmac.Driver.{state_of}
use taste_samv71_rtems_runti.Xdmac.Driver.Transfer.{refuse}

-- A channel is allocated when it is free, started when it is neither free nor started, done when it is
-- in use, and free again when it is done or halted. It can be halted at any time.
pub data Edge : State → State → Type 0 where
  stays : (s : State) → Edge s s
  allocates : Edge free allocated
  starts_allocated : Edge allocated start
  starts_in_xfr : Edge in_xfr start
  starts_done : Edge done start
  starts_halted : Edge halted start
  finishes_allocated : Edge allocated done
  finishes_start : Edge start done
  finishes_in_xfr : Edge in_xfr done
  finishes_halted : Edge halted done
  halts : (s : State) → Edge s halted
  releases_done : Edge done free
  releases_halted : Edge halted free

-- Each channel goes along an edge.
abbrev pub Moves : Xdmad → Xdmad → Type 0
Moves x x' = (j : ℕ) → Edge (state_of x j) (state_of x' j)

pub Moves-refl : (x : Xdmad) → Moves x x
Moves-refl x j = stays (state_of x j)

pub modify-Moves :
    (x : Xdmad) (i : ℕ) (f : Channel → Channel)
    → Edge (state_of x i) (f (get_or x.channels i blank)).state
    → Moves x (record x { channels = modify x.channels i f })
modify-Moves x i f edge j = elim (get_or-modify_cases x.channels i j f blank) [
  | inl same ↦ rw (state_of, same) (stays (state_of x j))
  | inr (e, there) ↦ rw (state_of, there) (rw e edge)
]

-- The tables of the code keep to these edges.
pub refuse-Edge : (s : State) → refuse s ≡ none → Edge s start
refuse-Edge free e = absurd (ground arith)
refuse-Edge start e = stays start
refuse-Edge allocated e = starts_allocated
refuse-Edge in_xfr e = starts_in_xfr
refuse-Edge done e = starts_done
refuse-Edge halted e = starts_halted

pub is_free-Edge : (s : State) → is_free s ≡ false → Edge s done
is_free-Edge free e = absurd (ground arith)
is_free-Edge start e = finishes_start
is_free-Edge allocated e = finishes_allocated
is_free-Edge in_xfr e = finishes_in_xfr
is_free-Edge done e = stays done
is_free-Edge halted e = finishes_halted

pub release-Edge : (s s' : State) → release s ≡ some s' → Edge s s'
release-Edge free s' e = rw (some_inj.0 (sym e)) (stays free)
release-Edge allocated s' e = absurd (ground arith)
release-Edge start s' e = absurd (ground arith)
release-Edge in_xfr s' e = absurd (ground arith)
release-Edge done s' e = rw (some_inj.0 (sym e)) releases_done
release-Edge halted s' e = rw (some_inj.0 (sym e)) releases_halted
