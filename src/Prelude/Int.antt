-- ===== src/Prelude/Int.antt =====
-- Go's signed integers: `ℤ` for an `int` whose range the code tests, and the 64-bit pattern that an
-- `int64` counter keeps (its additions wrap).
use Prim.Native.Nat.{ℕ, suc, ◌+◌, ◌-◌, ◌%◌, ◌^◌}
use mathlib.Core.Bool.{Bool, false}
use log_service.Prelude.Tests.{ltb}

-- `negsuc n` is -(n + 1).
pub data ℤ : Type 0 where
  pos : ℕ → ℤ
  negsuc : ℕ → ℤ

abbrev pub pos_part : ℤ → ℕ
pos_part (pos n) = n
pos_part (negsuc n) = 0

abbrev pub neg_part : ℤ → ℕ
neg_part (pos n) = 0
neg_part (negsuc n) = suc n

abbrev pub ltb_ℤ : ℤ → ℤ → Bool
ltb_ℤ a b = ltb (pos_part a + neg_part b) (pos_part b + neg_part a)

-- `a > 0`
abbrev pub is_positive : ℤ → Bool
is_positive (pos n) = ltb 0 n
is_positive (negsuc n) = false

abbrev pub word64 : ℕ
word64 = 2 ^ 64

-- `int64` addition on 64-bit patterns.
unfoldable pub add64 : ℕ → ℕ → ℕ
add64 a b = (a + b) % word64

-- `int64(n)` as a 64-bit pattern.
unfoldable pub int64_of : ℤ → ℕ
int64_of (pos n) = n % word64
int64_of (negsuc n) = (word64 - suc (n % word64)) % word64
