-- ===== src/Hal/Time/Reading.antt =====
-- What the loop reads belongs together, and it ends.
use mathlib.Core.List.{Memᴰ}
use taste_samv71_rtems_runti.Common.{
  ◌++◌, ◌≢◌, ℕ, ◌+◌, ◌≡◌, Bool, u32, ◌∙◌, refl, sym, ap, true, false, none, some, List, [], ◌∷◌,
  arith, Bool-cases, inl, inr,
}
use taste_samv71_rtems_runti.Hal.Time.{
  AccessFlag, Event, interrupt, other_reset, Round, Timer, timer_irq_handler, happen, attempt,
  read_counters,
}

abbrev no_interrupt : List Event → Bool
no_interrupt [] = true
no_interrupt (interrupt ∷ es) = false
no_interrupt (other_reset ∷ es) = no_interrupt es

abbrev no_reset : List Event → Bool
no_reset [] = true
no_reset (interrupt ∷ es) = no_reset es
no_reset (other_reset ∷ es) = false

abbrev pub IsQuiet : Round → Type 0
IsQuiet r =
    (no_interrupt r.before_load ≡ true)
    × (no_interrupt r.before_read ≡ true)
    × (no_interrupt r.before_check ≡ true)

-- No other task resets the flag in these rounds.
abbrev pub AreUnshared : List Round → Type 0
AreUnshared [] = Unit {0}
AreUnshared (r ∷ rs) =
    (no_reset r.before_load ≡ true)
    × (no_reset r.before_read ≡ true)
    × (no_reset r.before_check ≡ true)
    × AreUnshared rs

abbrev IsEmpty : Round → Type 0
IsEmpty r = (r.before_load ≡ []) × (r.before_read ≡ []) × (r.before_check ≡ [])

IsEmpty-IsQuiet : (r : Round) → IsEmpty r → IsQuiet r
IsEmpty-IsQuiet r (a, b, c) = (ap no_interrupt a, ap no_interrupt b, ap no_interrupt c)

module _ (api : AccessFlag) where
  -- A flag that is seen as set stays so while no other task resets it.
  check-happen :
      (es : List Event) (t : Timer api)
      → no_reset es ≡ true
      → api.check t.reloads_modified_flag ≡ true
      → api.check (happen api es t).reloads_modified_flag ≡ true
  unfolding happen timer_irq_handler
  check-happen [] t n h = h
  check-happen (interrupt ∷ es) t n h = check-happen es _ n (api.check-set t.reloads_modified_flag)
  check-happen (other_reset ∷ es) t n h = absurd (ground arith)

  unseen :
      (es : List Event) (t : Timer api)
      → no_reset es ≡ true
      → api.check (happen api es t).reloads_modified_flag ≡ false
      → es ≡ []
  unfolding happen timer_irq_handler
  unseen [] t n e = refl
  unseen (interrupt ∷ es) t n e = absurd (
      cc (
        sym (check-happen es (timer_irq_handler api t) n (api.check-set t.reloads_modified_flag))
        ∙ e))
  unseen (other_reset ∷ es) t n e = absurd (ground arith)

  nothing_happens : (es : List Event) (t : Timer api) → es ≡ [] → happen api es t ≡ t
  unfolding happen
  nothing_happens es t e = rw e refl

  flag_before :
      (es : List Event) (t : Timer api)
      → es ≡ []
      → api.check (happen api es t).reloads_modified_flag ≡ false
      → api.check t.reloads_modified_flag ≡ false
  flag_before es t z e =
      ap (λ (s : Timer api). api.check s.reloads_modified_flag) (sym (nothing_happens es t z)) ∙ e

  -- An unshared round that ends with an unset flag saw no interrupt at all.
  attempt-IsEmpty :
      (round : Round) (t : Timer api)
      → no_reset round.before_load ≡ true
      → no_reset round.before_read ≡ true
      → no_reset round.before_check ≡ true
      → api.check (attempt api round t).2.reloads_modified_flag ≡ false
      → IsEmpty round
  unfolding attempt
  attempt-IsEmpty round t n₁ n₂ n₃ e =
      let clean = record t { reloads_modified_flag = api.reset t.reloads_modified_flag } in
      let loaded = happen api round.before_load clean in
      let reading = happen api round.before_read loaded in
      let c = unseen round.before_check reading n₃ e in
      let e₁ = flag_before round.before_check reading c e in
      let b = unseen round.before_read loaded n₂ e₁ in
      let e₂ = flag_before round.before_read loaded b e₁ in
      (unseen round.before_load clean n₁ e₂, b, c)

  -- Without an interrupt an unset flag stays unset.
  calm :
      (es : List Event) (t : Timer api)
      → no_interrupt es ≡ true
      → api.check t.reloads_modified_flag ≡ false
      → api.check (happen api es t).reloads_modified_flag ≡ false
  unfolding happen
  calm [] t n h = h
  calm (interrupt ∷ es) t n h = absurd (ground arith)
  calm (other_reset ∷ es) t n h = calm es _ n (api.check-reset t.reloads_modified_flag)

  -- A quiet round ends the loop.
  check-attempt :
      (round : Round) (t : Timer api)
      → IsQuiet round
      → api.check (attempt api round t).2.reloads_modified_flag ≡ false
  unfolding attempt
  check-attempt round t q =
      let clean = record t { reloads_modified_flag = api.reset t.reloads_modified_flag } in
      let loaded = happen api round.before_load clean in
      calm round.before_check _ q.2 (
        calm round.before_read loaded q.1
          (calm round.before_load clean q.0 (api.check-reset t.reloads_modified_flag)))

  attempt_unchanged :
      (round : Round) (t : Timer api)
      → IsEmpty round
      → ((attempt api round t).0 ≡ (attempt api round t).2.reloads_counter)
        × ((attempt api round t).1 ≡ round.counter)
  unfolding attempt happen
  attempt_unchanged round t q = rw (q.0, q.1, q.2) (refl, refl)

  again :
      (round : Round) (rounds : List Round) (t : Timer api)
      → api.check (attempt api round t).2.reloads_modified_flag ≡ true
      → read_counters api (round ∷ rounds) t ≡ read_counters api rounds (attempt api round t).2
  unfolding read_counters
  again round rounds t seen = rw (seen, read_counters)

  finished :
      (round : Round) (rounds : List Round) (t : Timer api)
      → api.check (attempt api round t).2.reloads_modified_flag ≡ false
      → read_counters api (round ∷ rounds) t ≡ some (attempt api round t)
  unfolding read_counters
  finished round rounds t quiet = rw (quiet, read_counters)

  -- When no other task resets the flag during the loop, and the loop ends, its software count is the
  -- one that stands as the loop ends, and its hardware count was read in a round of the environment in
  -- which no interrupt arrived.
  pub read_counters_lem :
      (rounds : List Round) (t t' : Timer api) (reloads ticks : ℕ)
      → AreUnshared rounds
      → read_counters api rounds t ≡ some (reloads, ticks, t')
      → (reloads ≡ t'.reloads_counter)
        × (round : Round) × Memᴰ round rounds
        × IsQuiet round
        × (ticks ≡ round.counter)
  unfolding read_counters
  read_counters_lem [] t t' reloads ticks n e = cc
  read_counters_lem (round ∷ rounds) t t' reloads ticks (n₁, n₂, n₃, n) e =
      elim (Bool-cases (api.check (attempt api round t).2.reloads_modified_flag)) [
        | inl seen ↦
            let (same, found, m, q, c) =
              read_counters_lem rounds (attempt api round t).2 t' reloads ticks n
                (sym (again round rounds t seen) ∙ e) in
            (same, found, Memᴰ.tail m, q, c)
        | inr quiet ↦
            let p : attempt api round t ≡ (reloads, ticks, t') =
              cc (sym (finished round rounds t quiet) ∙ e) in
            let q = attempt-IsEmpty round t n₁ n₂ n₃ quiet in
            let read = attempt_unchanged round t q in
            (
              sym (ap (λ (r : ℕ × ℕ × Timer api). r.0) p)
                  ∙ read.0
                  ∙ ap (λ (r : ℕ × ℕ × Timer api). r.2.reloads_counter) p,
              round,
              Memᴰ.head refl,
              IsEmpty-IsQuiet round q,
              sym (ap (λ (r : ℕ × ℕ × Timer api). r.1) p) ∙ read.1,
            )
      ]

  -- The loop ends with the first quiet round at the latest, however many disturbed rounds precede it.
  pub read_counters_total :
      (before : List Round) (round : Round) (after : List Round) (t : Timer api)
      → IsQuiet round
      → read_counters api (before ++ (round ∷ after)) t ≢ none
  unfolding read_counters
  read_counters_total [] round after t q = rw (check-attempt round t q) (λ e. cc)
  read_counters_total (first ∷ before) round after t q =
      elim (Bool-cases (api.check (attempt api first t).2.reloads_modified_flag)) [
        | inl seen ↦ rw seen (read_counters_total before round after _ q)
        | inr quiet ↦ rw quiet (λ e. cc)
      ]

  -- When an interrupt arrives between the load of the software counter and the read of the hardware
  -- counter, and another task that reads the time then resets the flag, the loop ends in this round
  -- all the same, with the software count of before the interrupt.
  pub read_counters-shared :
      (round : Round) (rounds : List Round) (t : Timer api)
      → round.before_load ≡ []
      → round.before_read ≡ interrupt ∷ other_reset ∷ []
      → round.before_check ≡ []
      → (t' : Timer api) × (read_counters api (round ∷ rounds) t
          ≡ some (t.reloads_counter, round.counter, t'))
        × (t'.reloads_counter ≡ u32 (t.reloads_counter + 1))
  unfolding attempt happen timer_irq_handler
  read_counters-shared round rounds t e₁ e₂ e₃ =
      let unset : api.check (attempt api round t).2.reloads_modified_flag ≡ false =
        rw (e₁, e₂, e₃) (api.check-reset _) in
      (
        (attempt api round t).2,
        finished round rounds t unset ∙ rw (e₁, e₂, e₃) refl,
        rw (e₁, e₂, e₃) refl,
      )
