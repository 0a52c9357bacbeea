-- ===== src/Snmp/RoundTrip/Fields.antt =====
-- One integer or string of a response is decoded to itself.
use smartsnmp.Base.{ℕ, ◌+◌, ◌%◌, ◌≡◌, ◌<◌, refl, List, ◌++◌, some, length, arith, le→leb}
use smartsnmp.Base.Bytes.{IsU32, u32_mod}
use smartsnmp.Ber.Integer.{ber_int_enc}
use smartsnmp.Ber.Integer.Size.{length-ber_int_enc}
use smartsnmp.Ber.Length.{ber_length_enc}
use smartsnmp.Ber.Value.{word, decoded, ber_value_dec, ber_value_enc, kind_of}
use smartsnmp.Ber.Value.RoundTrip.{ber_value_dec-ber_value_enc}
use smartsnmp.Snmp.Packet.{ErrCode, Field}
use smartsnmp.Snmp.Parser.{ok, read_byte, expect, int_value, int_field, str_field}
use smartsnmp.Snmp.Parser.Laws.{expect_lem, read_byte_lem, dec_length-enc, take_bytes-append}
use smartsnmp.Snmp.MsgOut.{enc_hdr, enc_int, enc_str}

pub expect-enc_hdr :
    (tag : ℕ) (e : ErrCode) (len : ℕ) (bs : List ℕ)
    → expect tag e (enc_hdr tag len bs) ≡ ok tt (ber_length_enc len ++ bs)
unfolding enc_hdr
expect-enc_hdr tag e len bs = expect_lem tag e (ber_length_enc len ++ bs)

pub read_byte-enc_hdr :
    (tag len : ℕ) (bs : List ℕ) → read_byte (enc_hdr tag len bs) ≡ ok tag (ber_length_enc len ++ bs)
unfolding enc_hdr
read_byte-enc_hdr tag len bs = read_byte_lem tag (ber_length_enc len ++ bs)

-- The length is that of the shortest form, as `ber_int_enc` writes it.
pub record IsExact (f : Field) : Type 0 where
  pub word : IsU32 f.val
  pub exact : f.len ≡ length (ber_int_enc f.val)

value_dec-ber_int_enc : (w : ℕ) → IsU32 w → ber_value_dec 0x02 (ber_int_enc w) ≡ decoded (word w)
unfolding kind_of ber_value_enc
value_dec-ber_int_enc w h =
    let (l, e, d, c) = ber_value_dec-ber_value_enc 0x02 (word w) h in
    let p : some (ber_int_enc w) ≡ some l = e in let q : ber_int_enc w ≡ l = cc in rw q d

IsU32-len : (f : Field) → IsExact f → IsU32 f.len
IsU32-len f h = omega (arith, h.exact, length-ber_int_enc f.val h.word)

pub int_field-enc_int :
    (e : ErrCode) (f : Field) (bs : List ℕ) → IsExact f → int_field e (enc_int f bs) ≡ ok f bs
unfolding int_field enc_int int_value
int_field-enc_int e f bs h =
    rw
      (
        expect_lem 0x02 e (ber_length_enc f.len ++ (ber_int_enc f.val ++ bs)),
        dec_length-enc f.len (ber_int_enc f.val ++ bs) (IsU32-len f h),
        take_bytes-append (ber_int_enc f.val) bs f.len h.exact,
        value_dec-ber_int_enc f.val h.word,
      )
      refl

pub str_field-enc_str :
    (e too_long : ErrCode) (room : ℕ) (s bs : List ℕ)
    → length s < room
    → room < 100
    → str_field e too_long room (enc_str s bs) ≡ ok s bs
unfolding str_field enc_str
str_field-enc_str e too_long room s bs h r =
    rw
      (
        expect_lem 0x04 e (ber_length_enc (length s) ++ (s ++ bs)),
        dec_length-enc (length s) (s ++ bs) (omega arith),
        le→leb ((length s + 1) % u32_mod) room (omega arith),
        take_bytes-append s bs (length s) refl,
      )
      refl
