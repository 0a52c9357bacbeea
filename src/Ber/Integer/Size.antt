-- ===== src/Ber/Integer/Size.antt =====
-- The length of an encoded integer: the `_try` functions announce it, and it is the least.
use smartsnmp.Base.{ℕ, ◌≡◌, ◌≤◌, ◌<◌, List, [], ◌∷◌, arith, length, All}
use smartsnmp.Base.Bytes.{IsByte, IsU32, high_bit-bytes}
use smartsnmp.Ber.Integer.{ber_int_enc, ber_int_enc_try, ber_uint_enc, ber_uint_enc_try}

-- X.690 8.3.2: the first nine bits of an encoded integer are not all equal.
abbrev pub IsShortest : List ℕ → Type 0
IsShortest [] = ⊥
IsShortest (b ∷ []) = Unit {0}
IsShortest (b ∷ c ∷ bs) = (b ≡ 0 → 128 ≤ c) × (b ≡ 255 → c < 128)

-- `ber_int_enc` writes exactly as many bytes as `ber_int_enc_try` announced, 1 to 4 of them.
pub length-ber_int_enc :
    (w : ℕ)
    → IsU32 w
    → (length (ber_int_enc w) ≡ ber_int_enc_try w)
      × (1 ≤ ber_int_enc_try w)
      × (ber_int_enc_try w ≤ 4)
unfolding ber_int_enc ber_int_enc_try
length-ber_int_enc w h = ground (arith, high_bit-bytes w) steps 10000000

pub length-ber_uint_enc :
    (w : ℕ)
    → IsU32 w
    → (length (ber_uint_enc w) ≡ ber_uint_enc_try w)
      × (1 ≤ ber_uint_enc_try w)
      × (ber_uint_enc_try w ≤ 5)
unfolding ber_uint_enc ber_uint_enc_try
length-ber_uint_enc w h = ground (arith, high_bit-bytes w)

pub ber_int_enc-IsShortest :
    (w : ℕ) → IsU32 w → All IsByte (ber_int_enc w) × IsShortest (ber_int_enc w)
unfolding ber_int_enc
ber_int_enc-IsShortest w h = ground (arith, high_bit-bytes w)

pub ber_uint_enc-IsShortest :
    (w : ℕ) → IsU32 w → All IsByte (ber_uint_enc w) × IsShortest (ber_uint_enc w)
unfolding ber_uint_enc
ber_uint_enc-IsShortest w h = ground (arith, high_bit-bytes w)
