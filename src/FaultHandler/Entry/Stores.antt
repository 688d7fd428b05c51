-- ===== src/FaultHandler/Entry/Stores.antt =====
-- Where the fault handler stores, and what its stores leave alone.
use taste_samv71_rtems_runti.Common.{
  ℕ, ◌+◌, ◌≡◌, refl, Bool, true, false, List, [], ◌∷◌, ◌++◌, ◌&&◌, ◌||◌, ltb, leb, ◌==◌, arith,
  Bool-cases, inl, inr,
}
use taste_samv71_rtems_runti.FaultHandler.Entry.{
  Instruction, Core, word_at, death_report_begin, wdt_cr, exec, run,
}

-- The addresses to which the handler stores
abbrev pub is_own : ℕ → Bool
is_own a = leb death_report_begin a && ltb a (death_report_begin + 632) || a == wdt_cr

abbrev pub all_own : List (ℕ × ℕ) → Bool
all_own [] = true
all_own ((a, v) ∷ ws) = is_own a && all_own ws

pub run-append :
    (memory : ℕ → ℕ) (p q : List Instruction) (c : Core)
    → run memory (p ++ q) c ≡ run memory q (run memory p c)
unfolding run
run-append memory [] q c = refl
run-append memory (i ∷ p) q c = run-append memory p q (exec memory i c)

module _ (memory : ℕ → ℕ) where
  pub word_at-other :
      (ws : List (ℕ × ℕ)) (a : ℕ)
      → all_own ws ≡ true
      → is_own a ≡ false
      → word_at memory ws a ≡ memory a
  unfolding word_at
  word_at-other [] a own other = refl
  word_at-other ((at, v) ∷ ws) a own other = elim (Bool-cases (is_own at)) [
    | inr foreign ↦ absurd (let bad : false ≡ true = simp foreign at own in cc)
    | inl here ↦
        let ne : (a == at) ≡ false = elim (Bool-cases (a == at)) [
          | inl same ↦ absurd (let e : a ≡ at = ground arith in cc)
          | inr differs ↦ differs
        ] in
        simp ne (word_at-other ws a (simp here at own) other)
  ]
