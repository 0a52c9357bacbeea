-- ===== src/Ber/Integer.antt =====
-- `ber_int_enc`, `ber_uint_enc` and their `_try` forms of core/snmp_encoder.c (the branch
-- compiled under LITTLE_ENDIAN), `ber_int_dec` and `ber_uint_dec` of core/snmp_decoder.c.
-- An `int` is its 32-bit two's-complement pattern, so `value >= 0` is `value < 2 ^ 31`.
-- A buffer and its byte length are one list of bytes.
pub mod RoundTrip
pub mod Size
use smartsnmp.Base.{ℕ, zero, suc, ◌+◌, ◌-◌, List, [], ◌∷◌, ◌++◌, Option, none, some, not, Bool}
use smartsnmp.Base.{ltb, leb, ◌==◌, if◌then◌else◌, length}
use smartsnmp.Base.Bytes.{byte, high_bit, shift_in}

-- `while (i > 0 && !a.buf[i]) i--;`
unfoldable pub skip_zero : ℕ → ℕ → ℕ
skip_zero w zero = 0
skip_zero w (suc i) = if byte w (suc i) == 0 then skip_zero w i else suc i

-- `while (i > 0 && a.buf[i] == 0xff) i--;`
unfoldable pub skip_ff : ℕ → ℕ → ℕ
skip_ff w zero = 0
skip_ff w (suc i) = if byte w (suc i) == 0xff then skip_ff w i else suc i

-- `while (i >= 0) buf[j++] = a.buf[i--];`
unfoldable pub copy_down : ℕ → ℕ → List ℕ
copy_down w zero = byte w 0 ∷ []
copy_down w (suc i) = byte w (suc i) ∷ copy_down w i

abbrev pub is_nonneg : ℕ → Bool
is_nonneg w = ltb w 0x8000_0000

-- The byte length that `ber_int_enc` will write.
unfoldable pub ber_int_enc_try : ℕ → ℕ
unfolding skip_zero skip_ff
ber_int_enc_try w =
    if is_nonneg w
    then (let i = skip_zero w 3 in (if high_bit (byte w i) then 1 else 0) + (i + 1))
    else (let i = skip_ff w 3 in (if not (high_bit (byte w i)) then 1 else 0) + (i + 1))

unfoldable pub ber_int_enc : ℕ → List ℕ
unfolding skip_zero skip_ff copy_down
ber_int_enc w =
    if is_nonneg w
    then (let i = skip_zero w 3 in (if high_bit (byte w i) then 0x00 ∷ [] else []) ++ copy_down w i)
    else (let i = skip_ff w 3 in
        (if not (high_bit (byte w i)) then 0xff ∷ [] else []) ++ copy_down w i)

unfoldable pub ber_uint_enc_try : ℕ → ℕ
unfolding skip_zero
ber_uint_enc_try w = let i = skip_zero w 3 in (if high_bit (byte w i) then 1 else 0) + (i + 1)

unfoldable pub ber_uint_enc : ℕ → List ℕ
unfolding skip_zero copy_down
ber_uint_enc w =
    let i = skip_zero w 3 in (if high_bit (byte w i) then 0x00 ∷ [] else []) ++ copy_down w i

-- `for (j = 0; j < sizeof(int) - len; j++) *value = (*value << 8) | 0xff;` on the rounds left.
unfoldable pub sign_fill : ℕ → ℕ → ℕ
sign_fill zero v = v
sign_fill (suc n) v = sign_fill n (shift_in v 0xff)

-- `while (i < len) *value = (*value << 8) | buf[i++];`
unfoldable pub shift_all : List ℕ → ℕ → ℕ
shift_all [] v = v
shift_all (b ∷ bs) v = shift_all bs (shift_in v b)

-- `none` is undefined behaviour: a read past the value, or, with the sign bit set, a value of
-- more than sizeof(int) bytes, where the unsigned bound `sizeof(int) - len` wraps and `j` overflows.
unfoldable pub ber_int_dec : List ℕ → Option ℕ
unfolding sign_fill shift_all
ber_int_dec [] = none
ber_int_dec (b ∷ bs) =
    let len = length (b ∷ bs) in
    if high_bit b
    then (if leb len 4 then some (shift_all (b ∷ bs) (sign_fill (4 - len) 0)) else none)
    else some (shift_all (if b == 0 then bs else b ∷ bs) 0)

unfoldable pub ber_uint_dec : List ℕ → Option ℕ
unfolding shift_all
ber_uint_dec [] = none
ber_uint_dec (b ∷ bs) = some (shift_all (if b == 0 then bs else b ∷ bs) 0)
