-- ===== src/Ber/Integer/RoundTrip.antt =====
-- The integer decoders read back what the encoders write.
use smartsnmp.Base.{ℕ, ◌≡◌, some, arith}
use smartsnmp.Base.Bytes.{IsU32, high_bit-bytes}
use smartsnmp.Ber.Integer.{ber_int_enc, ber_int_dec, ber_uint_enc, ber_uint_dec}

-- Every `int`, negative ones included, is decoded from its own encoding.
pub ber_int_dec-ber_int_enc : (w : ℕ) → IsU32 w → ber_int_dec (ber_int_enc w) ≡ some w
unfolding ber_int_enc ber_int_dec
ber_int_dec-ber_int_enc w h = ground (arith, high_bit-bytes w)

-- Every `unsigned int` is decoded from its own encoding.
pub ber_uint_dec-ber_uint_enc : (w : ℕ) → IsU32 w → ber_uint_dec (ber_uint_enc w) ≡ some w
unfolding ber_uint_enc ber_uint_dec
ber_uint_dec-ber_uint_enc w h = ground (arith, high_bit-bytes w)
