-- ===== src/Tests/Ber.antt =====
-- The BER codec of core/snmp_encoder.c and core/snmp_decoder.c at concrete values.
use smartsnmp.Base.{ℕ, ◌≡◌, ◌≤◌, List, [], ◌∷◌, ◌++◌, some, none, refl, arith, length, All}
use smartsnmp.Base.Bytes.{IsByte, high_bit}
use smartsnmp.Ber.Value.{word, kind_of, decoded, ber_value_enc, ber_value_dec, ber_value_dec_try}
use smartsnmp.Ber.Value.RoundTrip.{ber_value_dec-ber_value_enc}
use smartsnmp.Ber.Integer.{ber_int_enc, ber_int_dec, ber_uint_enc}
use smartsnmp.Ber.Integer.{ber_uint_enc_try}
use smartsnmp.Ber.Integer.Size.{IsShortest, length-ber_uint_enc}
use smartsnmp.Ber.Integer.Size.{ber_uint_enc-IsShortest}
use smartsnmp.Ber.Length.{ber_length_enc, ber_length_enc_try, ber_length_dec}
use smartsnmp.Ber.Length.Laws.{ber_length_dec-ber_length_enc, length-ber_length_enc}
use smartsnmp.Ber.ObjectId.{ber_oid_enc, sub_id_groups, enc_sub_id}
use smartsnmp.Ber.ObjectId.Encode.{length-ber_oid_enc}
use smartsnmp.Ber.ObjectId.RoundTrip.{decode, ber_oid_dec-ber_oid_enc}

-- -129 as an `int`.
abbrev minus_129 : ℕ
minus_129 = 0xffff_ff7f

int_bytes : ber_int_enc minus_129 ≡ 0xff ∷ 0x7f ∷ []
unfolding ber_int_enc high_bit
int_bytes = refl

int_padded : ber_int_enc 128 ≡ 0x00 ∷ 0x80 ∷ []
unfolding ber_int_enc high_bit
int_padded = refl

-- A negative value of more than four bytes runs the sign loop past its bound.
int_too_long : ber_int_dec (0x80 ∷ 0 ∷ 0 ∷ 0 ∷ 0 ∷ []) ≡ none
unfolding ber_int_dec high_bit
int_too_long = refl

uint_bytes : ber_uint_enc 0xff00_0000 ≡ 0x00 ∷ 0xff ∷ 0 ∷ 0 ∷ 0 ∷ []
unfolding ber_uint_enc high_bit
uint_bytes = refl

length_long : ber_length_enc 300 ≡ 0x82 ∷ 0x01 ∷ 0x2c ∷ []
unfolding ber_length_enc
length_long = refl

-- 1.3.6.1.4.1.50000
abbrev enterprise : List ℕ
enterprise = 6 ∷ 1 ∷ 4 ∷ 1 ∷ 50000 ∷ []

oid_bytes : ber_oid_enc (1 ∷ 3 ∷ enterprise) ≡ 0x2b ∷ 6 ∷ 1 ∷ 4 ∷ 1 ∷ 0x83 ∷ 0x86 ∷ 0x50 ∷ []
unfolding ber_oid_enc enc_sub_id sub_id_groups
oid_bytes = refl

length-ber_uint_enc_example :
    (length (ber_uint_enc 300) ≡ ber_uint_enc_try 300)
    × (1 ≤ ber_uint_enc_try 300)
    × (ber_uint_enc_try 300 ≤ 5)
length-ber_uint_enc_example = length-ber_uint_enc 300 (omega arith)

ber_uint_enc-IsShortest_example : All IsByte (ber_uint_enc 300) × IsShortest (ber_uint_enc 300)
ber_uint_enc-IsShortest_example = ber_uint_enc-IsShortest 300 (omega arith)

ber_length_dec-ber_length_enc_example :
    ber_length_dec (ber_length_enc 300 ++ (7 ∷ [])) ≡ some (300, length (ber_length_enc 300))
ber_length_dec-ber_length_enc_example = ber_length_dec-ber_length_enc 300 (7 ∷ []) (omega arith)

length-ber_length_enc_example :
    (length (ber_length_enc 300) ≡ ber_length_enc_try 300)
    × (1 ≤ ber_length_enc_try 300)
    × (ber_length_enc_try 300 ≤ 5)
    × All IsByte (ber_length_enc 300)
length-ber_length_enc_example = length-ber_length_enc 300 (omega arith)

ber_oid_dec-ber_oid_enc_example : decode (ber_oid_enc (1 ∷ 3 ∷ enterprise)) ≡ 1 ∷ 3 ∷ enterprise
ber_oid_dec-ber_oid_enc_example =
    ber_oid_dec-ber_oid_enc 1 3 enterprise (omega arith) (omega arith) (omega arith)

length-ber_oid_enc_example :
    (6 ≤ length (ber_oid_enc (1 ∷ 3 ∷ enterprise)))
    × (length (ber_oid_enc (1 ∷ 3 ∷ enterprise)) ≤ 26)
length-ber_oid_enc_example = length-ber_oid_enc 1 3 enterprise (omega arith)

ber_value_dec-ber_value_enc_example :
    (l : List ℕ) × (ber_value_enc 0x42 (word 300) ≡ some l)
    × (ber_value_dec 0x42 l ≡ decoded (word 300))
    × (ber_value_dec_try 0x42 l ≡ 1)
unfolding kind_of
ber_value_dec-ber_value_enc_example = ber_value_dec-ber_value_enc 0x42 (word 300) (omega arith)
