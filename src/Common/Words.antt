-- ===== src/Common/Words.antt =====
-- Machine words of 32 bits. An INT is the number of its two's complement.
use Prim.Native.Nat.{ℕ, ◌+◌, ◌%◌, ◌^◌}
use mathlib.Core.Bool.{Bool}
use open_lib.Common.Comparisons.{ltb}

abbrev pub u32 : ℕ → ℕ
u32 n = n % 2 ^ 32

-- The signed comparison `a < b` of two INT.
abbrev pub lt_signed : ℕ → ℕ → Bool
lt_signed a b = ltb ((a + 2 ^ 31) % 2 ^ 32) ((b + 2 ^ 31) % 2 ^ 32)
