-- ===== src/Ber/Length.antt =====
-- `ber_length_enc`, `ber_length_enc_try` of core/snmp_encoder.c (under LITTLE_ENDIAN) and
-- `ber_length_dec`, `ber_length_dec_try` of core/snmp_decoder.c: the length field of a TLV.
pub mod Laws
use Prim.Native.Nat.{bit_and, bit_or}
use mathlib.Core.Option
use smartsnmp.Base.{ℕ, zero, suc, ◌+◌, List, [], ◌∷◌, ◌++◌, Option, none, some}
use smartsnmp.Base.{ltb, if◌then◌else◌}
use smartsnmp.Base.Bytes.{high_bit, shift_in}
use smartsnmp.Ber.Integer.{skip_zero, copy_down}

unfoldable pub ber_length_enc_try : ℕ → ℕ
unfolding skip_zero
ber_length_enc_try v = let i = skip_zero v 3 in (if ltb 127 v then 1 else 0) + (i + 1)

unfoldable pub ber_length_enc : ℕ → List ℕ
unfolding skip_zero copy_down
ber_length_enc v =
    let i = skip_zero v 3 in (if ltb 127 v then bit_or 0x80 (i + 1) ∷ [] else []) ++ copy_down v i

-- `while (i < len) *value = (*value << 8) | buf[i++];` on the rounds left. `none` is a read
-- past the end of the buffer, which the code does not check for.
unfoldable pub shift_rounds : ℕ → List ℕ → ℕ → Option ℕ
shift_rounds zero bs v = some v
shift_rounds (suc n) [] v = none
shift_rounds (suc n) (b ∷ bs) v = shift_rounds n bs (shift_in v b)

-- The number of bytes of the length field.
unfoldable pub ber_length_dec_try : List ℕ → Option ℕ
ber_length_dec_try [] = none
ber_length_dec_try (b ∷ bs) = some (if high_bit b then 1 + bit_and b 0x7f else 1)

-- The value, and the number of bytes that the field takes.
unfoldable pub ber_length_dec : List ℕ → Option (ℕ × ℕ)
unfolding shift_rounds
ber_length_dec [] = none
ber_length_dec (b ∷ bs) =
    if high_bit b
    then (let len = 1 + bit_and b 0x7f in
        Option.map (λ v. (v, len)) (shift_rounds (bit_and b 0x7f) bs 0))
    else Option.map (λ v. (v, 1)) (shift_rounds 1 (b ∷ bs) 0)
