-- ===== src/Ber/Value.antt =====
-- `ber_value_enc`, `ber_value_enc_try` of core/snmp_encoder.c and `ber_value_dec`, `ber_value_dec_try` of
-- core/snmp_decoder.c: the dispatch over the tags of core/asn1.h. `void *value` with its number of
-- elements is a `Value`; where its kind is not that of the tag, C reads it as another type, which is
-- `none` here.
pub mod RoundTrip
use smartsnmp.Base.{
  leb, Bool, true, ℕ, List, [], ◌∷◌, Option, none, some, ◌==◌, ◌||◌, if◌then◌else◌, length,
}
use smartsnmp.Ber.Integer.{
  ber_int_enc, ber_int_enc_try, ber_uint_enc, ber_uint_enc_try, ber_int_dec, ber_uint_dec,
}
use smartsnmp.Ber.ObjectId.{ber_oid_enc, ber_oid_enc_try, ber_oid_dec, ber_oid_dec_try}

pub data Value : Type 0 where
  word : ℕ → Value
  oid : List ℕ → Value
  octets : List ℕ → Value

-- The groups of cases that the four switches share.
pub data Kind : Type 0 where
  int_kind : Kind
  uint_kind : Kind
  oid_kind : Kind
  octet_kind : Kind
  no_kind : Kind

unfoldable pub kind_of : ℕ → Kind
kind_of tag =
    if tag == 0x02 || tag == 0x41
    then int_kind
    else if tag == 0x42 || tag == 0x43
    then uint_kind
    else if tag == 0x06
    then oid_kind
    else if tag == 0x04 || tag == 0x40
    then octet_kind
    else no_kind

unfoldable pub enc_kind : Kind → Value → Option (List ℕ)
enc_kind int_kind (word w) = some (ber_int_enc w)
enc_kind uint_kind (word w) = some (ber_uint_enc w)
enc_kind oid_kind (oid ids) = some (ber_oid_enc ids)
enc_kind octet_kind (octets str) = some str
enc_kind no_kind v = some []
enc_kind kind v = none

unfoldable pub ber_value_enc : ℕ → Value → Option (List ℕ)
unfolding kind_of enc_kind
ber_value_enc tag v = enc_kind (kind_of tag) v

unfoldable pub enc_try_kind : Kind → Value → Option ℕ
enc_try_kind int_kind (word w) = some (ber_int_enc_try w)
enc_try_kind uint_kind (word w) = some (ber_uint_enc_try w)
enc_try_kind oid_kind (oid ids) = ber_oid_enc_try ids
enc_try_kind octet_kind (octets str) = some (length str)
enc_try_kind no_kind v = some 0
enc_try_kind kind v = none

unfoldable pub ber_value_enc_try : ℕ → Value → Option ℕ
unfolding kind_of enc_try_kind
ber_value_enc_try tag v = enc_try_kind (kind_of tag) v

-- The number of elements; a buffer and its byte length are a list of bytes.
unfoldable pub dec_try_kind : Kind → ℕ → List ℕ → ℕ
dec_try_kind int_kind b bs = 1
dec_try_kind uint_kind b bs = 1
dec_try_kind oid_kind b bs = ber_oid_dec_try b bs
dec_try_kind octet_kind b bs = length (b ∷ bs)
dec_try_kind no_kind b bs = 0

unfoldable pub ber_value_dec_try : ℕ → List ℕ → ℕ
unfolding kind_of dec_try_kind
ber_value_dec_try tag [] = 0
ber_value_dec_try tag (b ∷ bs) = dec_try_kind (kind_of tag) b bs

-- What is written to `value`: nothing, a value, or the result of undefined behaviour.
pub data Decoded : Type 0 where
  nothing : Decoded
  decoded : Value → Decoded
  undefined : Decoded

unfoldable pub of_word : Option ℕ → Decoded
of_word none = undefined
of_word (some w) = decoded (word w)

unfoldable pub dec_kind : Kind → ℕ → List ℕ → Decoded
unfolding of_word
dec_kind int_kind b bs = of_word (ber_int_dec (b ∷ bs))
dec_kind uint_kind b bs = of_word (ber_uint_dec (b ∷ bs))
dec_kind oid_kind b bs = decoded (oid (ber_oid_dec b bs))
dec_kind octet_kind b bs = decoded (octets (b ∷ bs))
dec_kind no_kind b bs = nothing

unfoldable pub ber_value_dec : ℕ → List ℕ → Decoded
unfolding kind_of dec_kind
ber_value_dec tag [] = nothing
ber_value_dec tag (b ∷ bs) = dec_kind (kind_of tag) b bs

-- The union of a `Variable` has 1024 bytes, which are 256 sub-identifiers.
unfoldable pub fits_union : Value → Bool
fits_union (word w) = true
fits_union (oid ids) = leb (length ids) 256
fits_union (octets str) = leb (length str) 1024
