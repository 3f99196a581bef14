-- ===== src/Bits.antt =====
-- Bit operations at variables: one digit of `bit_or`, and the laws for a zero operand.
use Prim.Native.Nat.{max, min, digits, bit_or-bitwise, bit_and-bitwise}
use fuseadf.Prelude.{
  ℕ, zero, suc, ◌+◌, ◌*◌, ◌/◌, ◌%◌, ◌≤◌, ◌<◌, ◌≡◌, refl, Bool, true, false, ◌==◌, bit_and, bit_or,
  arith, inl, inr, Bool-cases, if◌then◌else◌,
}

-- Whether a test passes at 0, 1, and so on up to a bound that is left out.
unfoldable pub all_below : ℕ → (ℕ → Bool) → Bool
all_below zero test = true
all_below (suc n) test = if test n then all_below n test else false

pub all_below_sound :
    (n : ℕ) (test : ℕ → Bool) (x : ℕ) → all_below n test ≡ true → x < n → test x ≡ true
unfolding all_below
all_below_sound (suc n) test x passed below = elim (Bool-cases (x == n)) [
  | inl last ↦ ground arith
  | inr earlier ↦ ground (arith, all_below_sound n test x)
]
all_below_sound zero test x passed below = ground arith

-- The loop behind both operations, for what it does at the end and with a pair of digits: its fuel
-- makes no difference if it covers the first number.
module _ (finish : ℕ → ℕ) (digit : ℕ → ℕ → ℕ) where
  loop_fuel : (a n m b : ℕ) → a ≤ n → a ≤ m → digits finish digit n a b ≡ digits finish digit m a b
  loop_fuel zero zero zero b h k = refl
  loop_fuel zero zero (suc m) b h k = refl
  loop_fuel zero (suc n) zero b h k = refl
  loop_fuel zero (suc n) (suc m) b h k = refl
  loop_fuel (suc a) zero m b h k = ground arith
  loop_fuel (suc a) (suc n) zero b h k = ground arith
  loop_fuel (suc a) (suc n) (suc m) b h k =
      let rest = loop_fuel (suc a / 2) n m (b / 2) (omega arith) (omega arith) in
      omega (arith, rest)

  -- With just enough fuel for each.
  loop_step :
      (a b : ℕ)
      → digits finish digit (suc a) (suc a) b
        ≡ digits finish digit (suc a / 2) (suc a / 2) (b / 2) * 2 + digit (suc a % 2) (b % 2)
  loop_step a b =
      let rest = loop_fuel (suc a / 2) a (suc a / 2) (b / 2) (omega arith) (omega arith) in
      omega (arith, rest)

bit_or_step : (a b : ℕ) → bit_or a b ≡ bit_or (a / 2) (b / 2) * 2 + max (a % 2) (b % 2)
bit_or_step zero b = rw (bit_or-bitwise 0 b, bit_or-bitwise 0 (b / 2)) (omega arith)
bit_or_step (suc a) b =
    rw (bit_or-bitwise (suc a) b, bit_or-bitwise (suc a / 2) (b / 2)) (loop_step (λ b. b) max a b)

bit_and_step : (a b : ℕ) → bit_and a b ≡ bit_and (a / 2) (b / 2) * 2 + min (a % 2) (b % 2)
bit_and_step zero b = rw (bit_and-bitwise 0 b, bit_and-bitwise 0 (b / 2)) (omega arith)
bit_and_step (suc a) b =
    rw (bit_and-bitwise (suc a) b, bit_and-bitwise (suc a / 2) (b / 2))
      (loop_step (λ b. zero) min a b)

-- Both operations with 0, for the numbers up to a bound.
with_zero : (bound a : ℕ) → a ≤ bound → (bit_or a 0 ≡ a) × (bit_and a 0 ≡ 0)
with_zero bound zero h = (refl, refl)
with_zero zero (suc a) h = ground arith
with_zero (suc bound) (suc a) h =
    let (or_half, and_half) = with_zero bound (suc a / 2) (omega arith) in
    (omega (arith, or_half, bit_or_step (suc a) 0), omega (arith, and_half, bit_and_step (suc a) 0))

bit_or-zero : (a : ℕ) → bit_or a 0 ≡ a
bit_or-zero a = (with_zero a a (omega arith)).0

pub bit_and-zero : (a : ℕ) → bit_and a 0 ≡ 0
bit_and-zero a = (with_zero a a (omega arith)).1

-- Setting one of the bits 1 to 3.
pub bit_or_two : (a : ℕ) → bit_or a 2 ≡ (a / 4 * 2 + 1) * 2 + a % 2
bit_or_two a = omega (arith, bit_or_step a 2, bit_or_step (a / 2) 1, bit_or-zero (a / 2 / 2))

pub bit_or_four : (a : ℕ) → bit_or a 4 ≡ (a / 8 * 2 + 1) * 4 + a % 4
bit_or_four a = omega (arith, bit_or_step a 4, bit_or_two (a / 2))

pub bit_or_eight : (a : ℕ) → bit_or a 8 ≡ (a / 16 * 2 + 1) * 8 + a % 8
bit_or_eight a = omega (arith, bit_or_step a 8, bit_or_four (a / 2))
