-- ===== src/Monitor/Log/Preempted/Alone.antt =====
-- A task that is not preempted.
use mathlib.Core.List.{map}
use taste_samv71_rtems_runti.Common.{
  ℕ, zero, suc, ◌<◌, ◌≡◌, refl, sym, ◌∙◌, ap, true, false, Bool-cases, inl, inr, List, [], ◌∷◌,
  ◌++◌, length, length-modify, if◌then◌else◌, modify, get_or, get_or-modify_self, arith,
}
use taste_samv71_rtems_runti.Monitor.Log.{
  EntryType, Log, handle_activation_log_cyclic_buffer, store,
}
use taste_samv71_rtems_runti.Monitor.Log.Preempted.{
  entered, time_stored, logged, refused, Call, call, idle, Tasks, advance, step, run,
}

-- A schedule of one task
abbrev pub steps_of : ℕ → List ℕ → List (ℕ × ℕ)
steps_of t times = map (λ now. (t, now)) times

modify-get_or : (calls : List Call) (t : ℕ) → modify calls t (λ c. get_or calls t idle) ≡ calls
modify-get_or [] t = refl
modify-get_or (c ∷ cs) zero = refl
modify-get_or (c ∷ cs) (suc t) = ap (◌∷◌ c) (modify-get_or cs t)

modify-modify :
    (calls : List Call) (t : ℕ) (a b : Call)
    → modify (modify calls t (λ c. a)) t (λ c. b) ≡ modify calls t (λ c. b)
modify-modify [] t a b = refl
modify-modify (c ∷ cs) zero a b = refl
modify-modify (c ∷ cs) (suc t) a b = ap (◌∷◌ c) (modify-modify cs t a b)

module _ (size : ℕ) where
  pub run-append :
      (xs ys : List (ℕ × ℕ)) (s : Tasks) → run size (xs ++ ys) s ≡ run size ys (run size xs s)
  unfolding run
  run-append [] ys s = refl
  run-append ((t, now) ∷ xs) ys s = run-append xs ys (step size t now s)

  -- The statements of one call
  unfoldable pub advances : List ℕ → Call → Log → Log × Call
  advances [] c log = (log, c)
  advances (now ∷ times) c log = let (log', c') = advance size now c log in advances times c' log'

  -- While only task t runs the others' calls stay where they are.
  pub run-alone :
      (times : List ℕ) (t : ℕ) (c : Call) (s : Tasks)
      → t < length s.calls
      → get_or s.calls t idle ≡ c
      → run size (steps_of t times) s ≡ record {
        log = (advances times c s.log).0;
        calls = modify s.calls t (λ d. (advances times c s.log).1);
      }
  unfolding run advances step
  run-alone [] t c s h e =
      ap (λ (l : List Call). record s { calls = l })
        (sym (modify-get_or s.calls t) ∙ ap (λ (d : Call). modify s.calls t (λ x. d)) e)
  run-alone (now ∷ times) t c s h e =
      let c' = (advance size now c s.log).1 in
      let s' : Tasks = record {
        log = (advance size now c s.log).0;
        calls = modify s.calls t (λ d. c');
      } in
      let rest =
        run-alone times t c' s' (omega (arith, length-modify s.calls t (λ d. c')))
          (get_or-modify_self s.calls t (λ d. c') idle h) in
      let first : step size t now s ≡ s' =
        ap
          (λ (d : Call).
            let moved = advance size now d s.log in
            record { log = moved.0; calls = modify s.calls t (λ x. moved.1) })
          e in
      ap (run size (steps_of t times)) first
      ∙ rest
      ∙ ap (λ (l : List Call). record { log = (advances times c' s'.log).0; calls = l })
          (modify-modify s.calls t c' _)

  pub advances-four :
      (t₁ t₂ t₃ now : ℕ) (i : ℕ) (k : EntryType) (log : Log)
      → log.is_frozen ≡ false
      → advances (t₁ ∷ t₂ ∷ t₃ ∷ now ∷ []) (call i k entered) log ≡ (
        record (store size i k now log) { activation_entry_counter = log.activation_entry_counter },
        call i k time_stored,
      )
  unfolding advances advance store
  advances-four t₁ t₂ t₃ now i k log open_log = simp open_log

  pub advances-six :
      (t₁ t₂ t₃ now t₄ t₅ : ℕ) (i : ℕ) (k : EntryType) (log : Log)
      → advances (t₁ ∷ t₂ ∷ t₃ ∷ now ∷ t₄ ∷ t₅ ∷ []) (call i k entered) log ≡ (
        (handle_activation_log_cyclic_buffer true size i k now log).0,
        call i k (
            if (handle_activation_log_cyclic_buffer true size i k now log).1
            then logged
            else refused),
      )
  unfolding advances advance store handle_activation_log_cyclic_buffer
  advances-six t₁ t₂ t₃ now t₄ t₅ i k log = elim (Bool-cases log.is_frozen) [
    | inl frozen ↦ simp frozen
    | inr open_log ↦ simp open_log
  ]

  -- A call that no other task interrupts does in its statements, one by one, what the function does at
  -- once, with the time of its fourth statement: the log becomes the function's, the call has returned
  -- the function's result, and the calls of all other tasks stay where they are.
  pub run-eq-handle_activation_log_cyclic_buffer :
      (t₁ t₂ t₃ now t₄ t₅ t i : ℕ) (k : EntryType) (s : Tasks)
      → t < length s.calls
      → get_or s.calls t idle ≡ call i k entered
      → run size (steps_of t (t₁ ∷ t₂ ∷ t₃ ∷ now ∷ t₄ ∷ t₅ ∷ [])) s ≡ record {
        log = (handle_activation_log_cyclic_buffer true size i k now s.log).0;
        calls = modify s.calls t (λ d. call i k (
            if (handle_activation_log_cyclic_buffer true size i k now s.log).1
            then logged
            else refused));
      }
  run-eq-handle_activation_log_cyclic_buffer t₁ t₂ t₃ now t₄ t₅ t i k s h e =
      run-alone (t₁ ∷ t₂ ∷ t₃ ∷ now ∷ t₄ ∷ t₅ ∷ []) t (call i k entered) s h e
      ∙ ap (λ (m : Log × Call). record { log = m.0; calls = modify s.calls t (λ d. m.1) })
          (advances-six t₁ t₂ t₃ now t₄ t₅ i k s.log)
