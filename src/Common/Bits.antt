-- ===== src/Common/Bits.antt =====
-- Laws of `bit_xor` and `bit_and` at variables, from the recursion on binary digits that the
-- native operations stand for.
use Prim.Native.Nat.{
  digits, bitwise, differ, bit_xor-bitwise, bit_and-bitwise, bit_xor, bit_and, ℕ, zero, suc, ◌+◌,
  ◌*◌, ◌/◌, ◌%◌, ◌≤◌, ◌<◌, ◌^◌, min,
}
use mathlib.Core.Path.{◌≡◌, refl, ap, ◌∙◌}
use mathlib.Core.Logic.{◌⊎◌, inl, inr}
use native.Mathlib.Nat.{pow-suc}
use native.Mathlib.Decide.{ℕ_discrete}
use native.Mathlib.Omega.{arith}

-- `rest` is what is left once the first number has run out, `op` the operation on two digits.
module _ (rest : ℕ → ℕ) (op : ℕ → ℕ → ℕ) where
  -- One more digit than the first number has adds nothing.
  digits_one_more : (k x y : ℕ) → x ≤ k → digits rest op (suc k) x y ≡ digits rest op k x y
  digits_one_more zero (suc x) y le = absurd (omega arith)
  digits_one_more zero zero y le = refl
  digits_one_more (suc k) zero y le = refl
  digits_one_more (suc k) (suc x) y le =
      ap (λ t. t * 2 + op (suc x % 2) (y % 2)) (digits_one_more k (suc x / 2) (y / 2) (omega arith))

  digits_enough : (k j x y : ℕ) → x ≤ j → j ≤ k → digits rest op k x y ≡ digits rest op j x y
  digits_enough zero j x y le up = let e : j ≡ 0 = omega arith in rw e
  digits_enough (suc k) j x y le up = elim (ℕ_discrete j (suc k)) [
    | yes e ↦ rw e
    | no ne ↦ digits_one_more k x y (omega arith) ∙ digits_enough k j x y le (omega arith)
  ]

  pub low_digit :
      (x y : ℕ)
      → bitwise rest op (suc x) y ≡ bitwise rest op (suc x / 2) (y / 2) * 2 + op (suc x % 2) (y % 2)
  low_digit x y =
      ap (λ t. t * 2 + op (suc x % 2) (y % 2))
        (digits_enough x (suc x / 2) (suc x / 2) (y / 2) (omega arith) (omega arith))

pub bit_and_step : (x y : ℕ) → bit_and x y ≡ bit_and (x / 2) (y / 2) * 2 + min (x % 2) (y % 2)
bit_and_step zero y = simp bit_and-bitwise (omega arith)
bit_and_step (suc x) y = simp bit_and-bitwise (low_digit (λ w. 0) min x y)

differ-digits : (x y : ℕ) → x < 2 → y < 2 → differ x y ≡ (x + y) % 2
differ-digits zero zero p q = refl
differ-digits zero (suc zero) p q = refl
differ-digits (suc zero) zero p q = refl
differ-digits (suc zero) (suc zero) p q = refl
differ-digits zero (suc (suc y)) p q = absurd (omega arith)
differ-digits (suc zero) (suc (suc y)) p q = absurd (omega arith)
differ-digits (suc (suc x)) y p q = absurd (omega arith)

pub bit_xor_step : (a b : ℕ) → bit_xor a b ≡ bit_xor (a / 2) (b / 2) * 2 + (a % 2 + b % 2) % 2
bit_xor_step zero b = simp bit_xor-bitwise (omega arith)
bit_xor_step (suc a) b = simp bit_xor-bitwise (
    low_digit (λ y. y) differ a b
    ∙ ap (λ d. bitwise (λ y. y) differ (suc a / 2) (b / 2) * 2 + d)
        (differ-digits (suc a % 2) (b % 2) (omega arith) (omega arith)))

lt-pow : (n : ℕ) → n < 2 ^ n
lt-pow zero = omega arith
lt-pow (suc n) = omega (arith, lt-pow n, pow-suc 2 n)

half_lt : (k a : ℕ) → a < 2 ^ suc k → a / 2 < 2 ^ k
half_lt k a h = omega (arith, pow-suc 2 k)

pub bit_xor-lt : (k a b : ℕ) → a < 2 ^ k → b < 2 ^ k → bit_xor a b < 2 ^ k
bit_xor-lt zero zero zero p q = omega arith
bit_xor-lt zero zero (suc b) p q = absurd (omega arith)
bit_xor-lt zero (suc a) b p q = absurd (omega arith)
bit_xor-lt (suc k) a b p q = omega (
  arith,
  bit_xor_step a b,
  bit_xor-lt k (a / 2) (b / 2) (half_lt k a p) (half_lt k b q),
  pow-suc 2 k,
)

shift_once : (k q : ℕ) → q * 2 ^ suc k ≡ 2 * (q * 2 ^ k)
shift_once k q = omega (arith, ap (λ (power : ℕ). q * power) (pow-suc 2 k))

-- Two fields side by side are combined one by one.
pub bit_xor_fields :
    (k q r p s : ℕ)
    → r < 2 ^ k
    → s < 2 ^ k
    → bit_xor (q * 2 ^ k + r) (p * 2 ^ k + s) ≡ bit_xor q p * 2 ^ k + bit_xor r s
bit_xor_fields zero q zero p zero hr hs = ground arith
bit_xor_fields zero q (suc r) p s hr hs = absurd (omega arith)
bit_xor_fields zero q zero p (suc s) hr hs = absurd (omega arith)
bit_xor_fields (suc k) q r p s hr hs = ground (
  arith,
  bit_xor_step (q * 2 ^ suc k + r) (p * 2 ^ suc k + s),
  bit_xor_step r s,
  shift_once k q,
  shift_once k p,
  shift_once k (bit_xor q p),
  bit_xor_fields k q (r / 2) p (s / 2) (half_lt k r hr) (half_lt k s hs),
)

module _ where
  bit_xor_self_bits : (k a : ℕ) → a < 2 ^ k → bit_xor a a ≡ 0
  bit_xor_self_bits zero zero h = refl
  bit_xor_self_bits zero (suc a) h = absurd (omega arith)
  bit_xor_self_bits (suc k) a h =
      omega (arith, bit_xor_step a a, bit_xor_self_bits k (a / 2) (half_lt k a h))

  bit_xor-zero_bits : (k a : ℕ) → a < 2 ^ k → bit_xor a 0 ≡ a
  bit_xor-zero_bits zero zero h = refl
  bit_xor-zero_bits zero (suc a) h = absurd (omega arith)
  bit_xor-zero_bits (suc k) a h =
      omega (arith, bit_xor_step a 0, bit_xor-zero_bits k (a / 2) (half_lt k a h))

  pub bit_xor_comm : (k a b : ℕ) → a < 2 ^ k → b < 2 ^ k → bit_xor a b ≡ bit_xor b a
  bit_xor_comm zero zero zero p q = refl
  bit_xor_comm zero zero (suc b) p q = absurd (omega arith)
  bit_xor_comm zero (suc a) b p q = absurd (omega arith)
  bit_xor_comm (suc k) a b p q = omega (
    arith,
    bit_xor_step a b,
    bit_xor_step b a,
    bit_xor_comm k (a / 2) (b / 2) (half_lt k a p) (half_lt k b q),
  )

  pub bit_xor_assoc :
      (k a b c : ℕ)
      → a < 2 ^ k
      → b < 2 ^ k
      → c < 2 ^ k
      → bit_xor (bit_xor a b) c ≡ bit_xor a (bit_xor b c)
  bit_xor_assoc zero zero zero zero p q r = refl
  bit_xor_assoc zero zero zero (suc c) p q r = absurd (omega arith)
  bit_xor_assoc zero zero (suc b) c p q r = absurd (omega arith)
  bit_xor_assoc zero (suc a) b c p q r = absurd (omega arith)
  bit_xor_assoc (suc k) a b c p q r =
      let halves =
        bit_xor_assoc k (a / 2) (b / 2) (c / 2) (half_lt k a p) (half_lt k b q) (half_lt k c r) in
      let left : bit_xor a b / 2 ≡ bit_xor (a / 2) (b / 2) = omega (arith, bit_xor_step a b) in
      let right : bit_xor b c / 2 ≡ bit_xor (b / 2) (c / 2) = omega (arith, bit_xor_step b c) in
      ground (
        arith,
        bit_xor_step (bit_xor a b) c,
        bit_xor_step a (bit_xor b c),
        bit_xor_step a b,
        bit_xor_step b c,
        halves,
        left,
        right,
      )

pub bit_xor_self : (a : ℕ) → bit_xor a a ≡ 0
bit_xor_self a = bit_xor_self_bits a a (lt-pow a)

pub bit_xor-zero : (a : ℕ) → bit_xor a 0 ≡ a
bit_xor-zero a = bit_xor-zero_bits a a (lt-pow a)

-- The top bit by itself.
pub bit_and-top :
    (k a : ℕ)
    → a < 2 ^ suc k
    → (a < 2 ^ k) × (bit_and a (2 ^ k) ≡ 0) ⊎ (2 ^ k ≤ a) × (bit_and a (2 ^ k) ≡ 2 ^ k)
bit_and-top zero zero h = inl (omega arith, refl)
bit_and-top zero (suc zero) h = inr (omega arith, refl)
bit_and-top zero (suc (suc a)) h = absurd (omega arith)
bit_and-top (suc k) a h =
    let half : 2 ^ suc k / 2 ≡ 2 ^ k = omega (arith, pow-suc 2 k) in
    let even : 2 ^ suc k % 2 ≡ 0 = omega (arith, pow-suc 2 k) in
    let rest : bit_and a (2 ^ suc k) ≡ bit_and (a / 2) (2 ^ k) * 2 =
      bit_and_step a (2 ^ suc k) ∙ rw (half, even) (omega arith) in
    elim (bit_and-top k (a / 2) (half_lt (suc k) a h)) [
      | inl (below, e) ↦ inl (omega (arith, pow-suc 2 k), omega (arith, e, rest))
      | inr (above, e) ↦ inr (omega (arith, pow-suc 2 k), omega (arith, e, rest, pow-suc 2 k))
    ]
