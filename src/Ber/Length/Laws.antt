-- ===== src/Ber/Length/Laws.antt =====
-- The length field: its round trip, its size, and what the decoder accepts.
use Prim.Native.Nat.{bit_and, bit_or}
use smartsnmp.Base.{
  ℕ, zero, suc, ◌<◌, ◌≡◌, ◌≤◌, List, [], ◌∷◌, ◌++◌, ◌⊎◌, inl, inr, true, some, refl, arith, length,
  All,
}
use smartsnmp.Base.Bytes.{IsByte, IsU32, high_bit, high_bit-byte, byte, low_bits-byte, shift_in}
use smartsnmp.Ber.Integer.{skip_zero}
use smartsnmp.Ber.Length.{
  ber_length_enc, ber_length_enc_try, ber_length_dec, ber_length_dec_try, shift_rounds,
}

-- The number of bytes of a length, by its range.
skip_zero_cases :
    (v : ℕ)
    → IsU32 v
    → (skip_zero v 3 ≡ 0) × (v < 256)
      ⊎ (skip_zero v 3 ≡ 1) × (v < 65536)
      ⊎ (skip_zero v 3 ≡ 2) × (v < 16777216)
      ⊎ (skip_zero v 3 ≡ 3)
unfolding skip_zero
skip_zero_cases v h = ground arith

-- The first byte of the long form is above 127, and gives back the count.
long_form :
    (high_bit (bit_or 0x80 1) ≡ true)
    × (high_bit (bit_or 0x80 2) ≡ true)
    × (high_bit (bit_or 0x80 3) ≡ true)
    × (high_bit (bit_or 0x80 4) ≡ true)
unfolding high_bit
long_form = (refl, refl, refl, refl)

-- Decoding an encoded length gives the value and the size of the field, whatever follows it.
pub ber_length_dec-ber_length_enc :
    (v : ℕ) (rest : List ℕ)
    → IsU32 v
    → ber_length_dec (ber_length_enc v ++ rest) ≡ some (v, length (ber_length_enc v))
unfolding ber_length_enc ber_length_dec
ber_length_dec-ber_length_enc v rest h = elim (skip_zero_cases v h) [
  | inl (e, lt) ↦ rw e (ground (arith, long_form, high_bit-byte (byte v 0)))
  | inr (inl (e, lt)) ↦ rw e (ground (arith, long_form, high_bit-byte (byte v 1)))
  | inr (inr (inl (e, lt))) ↦ rw e (ground (arith, long_form, high_bit-byte (byte v 2)))
  | inr (inr (inr e)) ↦ rw e (ground (arith, long_form, high_bit-byte (byte v 3)))
]

pub length-ber_length_enc :
    (v : ℕ)
    → IsU32 v
    → (length (ber_length_enc v) ≡ ber_length_enc_try v)
      × (1 ≤ ber_length_enc_try v)
      × (ber_length_enc_try v ≤ 5)
      × All IsByte (ber_length_enc v)
unfolding ber_length_enc ber_length_enc_try
length-ber_length_enc v h = ground (arith)

shift_rounds_takes :
    (n : ℕ) (bs : List ℕ) (v r : ℕ)
    → All IsByte bs
    → IsU32 v
    → shift_rounds n bs v ≡ some r
    → IsU32 r × (n ≤ length bs)
unfolding shift_rounds
shift_rounds_takes zero bs v r bytes h e = ground arith
shift_rounds_takes (suc n) [] v r bytes h e = ground arith
shift_rounds_takes (suc n) (b ∷ bs) v r bytes h e =
    ground (arith, shift_rounds_takes n bs (shift_in v b) r)

-- Whatever the bytes, a decoded length is a 32-bit word, its field lies within the input, takes at
-- most 128 bytes, and has the size that `ber_length_dec_try` tells.
pub ber_length_dec_takes :
    (bs : List ℕ) (v n : ℕ)
    → All IsByte bs
    → ber_length_dec bs ≡ some (v, n)
    → IsU32 v × (1 ≤ n) × (n ≤ length bs) × (n ≤ 128) × (ber_length_dec_try bs ≡ some n)
unfolding ber_length_dec ber_length_dec_try
ber_length_dec_takes [] v n bytes e = ground arith
ber_length_dec_takes (b ∷ bs) v n bytes e =
    ground (arith, high_bit-byte b, low_bits-byte b, shift_rounds_takes (bit_and b 0x7f) bs 0 v)
