-- ===== src/Base/Bytes.antt =====
-- Bytes and 32-bit words as numbers: masks on a byte, the bytes of a word, and `(v << 8) | b`.
use Prim.Native.Nat.{ℕ, zero, suc, ◌+◌, ◌*◌, ◌/◌, ◌%◌, ◌^◌, ◌<◌, bit_and, bit_or}
use mathlib.Core.Path.{◌≡◌, refl}
use mathlib.Core.Bool.{Bool, true, false, not, ◌&&◌}
use native.Mathlib.Omega.{arith}
use smartsnmp.Base.Tests.{◌==◌, leb, ==→eq}

abbrev pub u32_mod : ℕ
u32_mod = 0x1_0000_0000

abbrev pub IsByte : ℕ → Type 0
IsByte b = b < 256

abbrev pub IsU32 : ℕ → Type 0
IsU32 w = w < 0x1_0000_0000

-- `b & 0x80`, as a truth value.
unfoldable pub high_bit : ℕ → Bool
high_bit b = not (bit_and b 0x80 == 0)

-- `a.buf[i]` of a union of a 32-bit word and its bytes, on a little-endian machine.
abbrev pub byte : ℕ → ℕ → ℕ
byte w i = w / 256 ^ i % 256

-- `(v << 8) | b` on a 32-bit word: the low byte of the shifted word is 0, so `|` adds.
abbrev pub shift_in : ℕ → ℕ → ℕ
shift_in v b = v * 256 % u32_mod + b

-- Over a small range a mask is checked by evaluation.
agree_below : (ℕ → Bool) → ℕ → Bool
agree_below p zero = true
agree_below p (suc n) = p n && agree_below p n

agree_below_sound : (p : ℕ → Bool) (n i : ℕ) → agree_below p n ≡ true → i < n → p i ≡ true
unfolding agree_below
agree_below_sound p zero i h lt = absurd (omega arith)
agree_below_sound p (suc n) i h lt = ground (arith, agree_below_sound p n i)

same : Bool → Bool → Bool
same true b = b
same false b = not b

same→eq : (a b : Bool) → same a b ≡ true → a ≡ b
unfolding same
same→eq true b h = ground arith
same→eq false b h = ground arith

pub high_bit-byte : (b : ℕ) → b < 256 → high_bit b ≡ leb 128 b
high_bit-byte b h =
    same→eq _ _ (agree_below_sound (λ i. same (high_bit i) (leb 128 i)) 256 b table h)
  where
    table : agree_below (λ i. same (high_bit i) (leb 128 i)) 256 ≡ true
    table = unfold agree_below same high_bit in refl

-- The four bytes of a word at once, as the proofs on 32-bit words list them.
pub high_bit-bytes :
    (w : ℕ)
    → (high_bit (byte w 0) ≡ leb 128 (byte w 0))
      × (high_bit (byte w 1) ≡ leb 128 (byte w 1))
      × (high_bit (byte w 2) ≡ leb 128 (byte w 2))
      × (high_bit (byte w 3) ≡ leb 128 (byte w 3))
high_bit-bytes w = (
  high_bit-byte _ (omega arith),
  high_bit-byte _ (omega arith),
  high_bit-byte _ (omega arith),
  high_bit-byte _ (omega arith),
)

-- `b & 0x7f`
pub low_bits-byte : (b : ℕ) → b < 256 → bit_and b 0x7f ≡ b % 128
low_bits-byte b h = ==→eq _ _ (agree_below_sound (λ i. bit_and i 0x7f == i % 128) 256 b table h)
  where
    table : agree_below (λ i. bit_and i 0x7f == i % 128) 256 ≡ true
    table = unfold agree_below in refl

-- `b | 0x80`
pub set_high_bit : (b : ℕ) → b < 128 → bit_or b 0x80 ≡ b + 128
set_high_bit b h = ==→eq _ _ (agree_below_sound (λ i. bit_or i 0x80 == i + 128) 128 b table h)
  where
    table : agree_below (λ i. bit_or i 0x80 == i + 128) 128 ≡ true
    table = unfold agree_below in refl
