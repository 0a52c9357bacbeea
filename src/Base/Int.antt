-- ===== src/Base/Int.antt =====
-- The C `int` as an integer: `pos n` is n and `negsuc n` is -(n + 1).
use Prim.Native.Nat.{ℕ, zero, suc, ◌+◌, ◌-◌, ◌%◌}
use mathlib.Core.Bool.{Bool, true, false}
use smartsnmp.Base.Tests.{ltb, if◌then◌else◌}

pub data ℤ : Type 0 where
  pos : ℕ → ℤ
  negsuc : ℕ → ℤ

-- `!x`, `x < 0` and `x > 0`.
abbrev pub is_zero : ℤ → Bool
is_zero (pos zero) = true
is_zero (pos (suc n)) = false
is_zero (negsuc n) = false

abbrev pub is_neg : ℤ → Bool
is_neg (pos n) = false
is_neg (negsuc n) = true

abbrev pub is_pos : ℤ → Bool
is_pos (pos zero) = false
is_pos (pos (suc n)) = true
is_pos (negsuc n) = false

-- The value of a 32-bit pattern read as an `int`.
abbrev pub signed32 : ℕ → ℤ
signed32 w = if ltb w 0x8000_0000 then pos w else negsuc (0x1_0000_0000 - w - 1)

-- An integer as its 32-bit pattern.
unfoldable pub pattern32 : ℤ → ℕ
pattern32 (pos n) = n % 0x1_0000_0000
pattern32 (negsuc n) = 0xffff_ffff - n % 0x1_0000_0000

-- `a - b` on `uint32_t`.
abbrev pub sub32 : ℕ → ℕ → ℕ
sub32 a b = (a + 0x1_0000_0000 - b) % 0x1_0000_0000
