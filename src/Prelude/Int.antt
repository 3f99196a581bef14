-- ===== src/Prelude/Int.antt =====
-- Signed integers over the native numbers: return codes, sector numbers, errno values.
use Prim.Native.Nat.{ℕ, zero, suc, ◌+◌, ◌-◌, ◌%◌, ◌^◌}
use mathlib.Core.Path.{◌≡◌}
use native.Mathlib.Omega.{arith}
use mathlib.Core.Bool.{Bool, true, false}
use fuseadf.Prelude.Tests.{ltb, ◌==◌, if◌then◌else◌}

-- `negsuc n` is -(n + 1).
pub data ℤ : Type 0 where
  pos : ℕ → ℤ
  negsuc : ℕ → ℤ

-- The integer -n.
abbrev pub neg : ℕ → ℤ
neg zero = pos 0
neg (suc n) = negsuc n

abbrev pub eqb_ℤ : ℤ → ℤ → Bool
eqb_ℤ (pos a) (pos b) = a == b
eqb_ℤ (negsuc a) (negsuc b) = a == b
eqb_ℤ _ _ = false

-- a < k, for a bound k that is not negative.
abbrev pub ltb_ℤ : ℤ → ℕ → Bool
ltb_ℤ (pos a) k = ltb a k
ltb_ℤ (negsuc a) k = true

-- The cast of a `uint32_t` to `int32_t`.
abbrev pub int32 : ℕ → ℤ
int32 n = let w = n % 2 ^ 32 in if ltb w (2 ^ 31) then pos w else neg (2 ^ 32 - w)

-- a - k
abbrev pub minus : ℤ → ℕ → ℤ
minus (pos a) k = if ltb a k then neg (k - a) else pos (a - k)
minus (negsuc a) k = negsuc (a + k)

-- a + k
abbrev pub plus : ℤ → ℕ → ℤ
plus (pos a) k = pos (a + k)
plus (negsuc a) k = if ltb a k then pos (k - suc a) else negsuc (a - k)

pub minus-plus : (a : ℤ) (k : ℕ) → minus (plus a k) k ≡ a
minus-plus (pos a) k = ground arith
minus-plus (negsuc a) k = ground arith
