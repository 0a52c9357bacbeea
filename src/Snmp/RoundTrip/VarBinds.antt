-- ===== src/Snmp/RoundTrip/VarBinds.antt =====
-- The variable bindings of a response are decoded to themselves.
use mathlib.Core.List.{append_assoc}
use smartsnmp.Base.{
  ℕ, ◌+◌, ◌*◌, ◌%◌, ◌≡◌, ◌≤◌, ◌<◌, ◌∙◌, refl, sym, ap, List, [], ◌∷◌, ◌++◌, some, length, arith,
  le→leb, All, length-append,
}
use smartsnmp.Base.Bytes.{IsU32}
use smartsnmp.Ber.Length.{ber_length_enc}
use smartsnmp.Ber.Length.Laws.{length-ber_length_enc}
use smartsnmp.Ber.ObjectId.{ber_oid_enc, ber_oid_enc_try}
use smartsnmp.Ber.ObjectId.Encode.{ber_oid_enc_try_wraps}
use smartsnmp.Ber.Value.{oid, decoded, ber_value_dec, ber_value_dec_try, ber_value_enc, kind_of}
use smartsnmp.Ber.Value.RoundTrip.{ber_value_dec-ber_value_enc}
use smartsnmp.Snmp.Packet.{VarBind, err_vb_oid_type}
use smartsnmp.Snmp.Parser.{ok}
use smartsnmp.Snmp.Parser.Laws.{expect_lem, read_byte_lem, dec_length-enc, take_bytes-append}
use smartsnmp.Snmp.MsgOut.Size.{length-enc_hdr}
use smartsnmp.Snmp.MsgIn.{oid_value, var_bind_alloc}
use smartsnmp.Snmp.MsgOut.{VbOut, tlv_len, enc_hdr}

-- A variable binding that comes back: an object identifier of 2 to 64 elements, the first two of which fit
-- one byte, encoded in less than 256 bytes, a value of at most 1024 bytes, and the length of both.
pub record IsReply (vb : VbOut) : Type 0 where
  pub a : ℕ
  pub b : ℕ
  pub ids : List ℕ
  pub shape : vb.oid ≡ a ∷ b ∷ ids
  pub second : b < 40
  pub first : a * 40 + b < 256
  pub words : All IsU32 ids
  pub short : length ids ≤ 62
  pub bytes : length (ber_oid_enc vb.oid) < 256
  pub small : length vb.value ≤ 1024
  pub total : vb.vb_len ≡ tlv_len (length (ber_oid_enc vb.oid)) + tlv_len (length vb.value)

-- The object identifier and the value, with `rest` behind them.
abbrev pub body : VbOut → List ℕ → List ℕ
body vb rest =
    enc_hdr 0x06 (length (ber_oid_enc vb.oid))
      (ber_oid_enc vb.oid ++ enc_hdr vb.value_type (length vb.value) (vb.value ++ rest))

-- The binding as a request has it.
abbrev pub as_in : VbOut → VarBind
as_in vb = record { oid = vb.oid; value_type = vb.value_type; value = vb.value }

-- `vb_list_len`
unfoldable pub list_len : List VbOut → ℕ
unfolding tlv_len
list_len [] = 0
list_len (vb ∷ vbs) = tlv_len vb.vb_len + list_len vbs

enc_hdr-append : (tag n : ℕ) (xs ys : List ℕ) → enc_hdr tag n xs ++ ys ≡ enc_hdr tag n (xs ++ ys)
unfolding enc_hdr
enc_hdr-append tag n xs ys = ap (λ (t : List ℕ). tag ∷ t) (append_assoc (ber_length_enc n) xs ys)

pub body-append : (vb : VbOut) (rest : List ℕ) → body vb rest ≡ body vb [] ++ rest
body-append vb rest = sym (
    enc_hdr-append 0x06 (length (ber_oid_enc vb.oid)) _ rest
    ∙ ap (enc_hdr 0x06 (length (ber_oid_enc vb.oid))) (
        append_assoc (ber_oid_enc vb.oid) _ rest
        ∙ ap (λ (t : List ℕ). ber_oid_enc vb.oid ++ t)
            (enc_hdr-append vb.value_type (length vb.value) (vb.value ++ []) rest
              ∙ ap (enc_hdr vb.value_type (length vb.value)) (append_assoc vb.value [] rest))))

-- The encoded object identifier, as the decoder reads it.
pub oid_bytes :
    (vb : VbOut)
    → IsReply vb
    → (ber_oid_enc_try vb.oid ≡ some (length (ber_oid_enc vb.oid)))
      × (ber_value_dec 0x06 (ber_oid_enc vb.oid) ≡ decoded (oid vb.oid))
      × (ber_value_dec_try 0x06 (ber_oid_enc vb.oid) ≤ 64)
unfolding kind_of ber_value_enc
oid_bytes vb h =
    let (l, e, d, c) =
      ber_value_dec-ber_value_enc 0x06 (oid (h.a ∷ h.b ∷ h.ids)) (h.second, h.first, h.words) in
    let p : some (ber_oid_enc (h.a ∷ h.b ∷ h.ids)) ≡ some l = e in
    let q : ber_oid_enc (h.a ∷ h.b ∷ h.ids) ≡ l = cc in
    let lt : length (ber_oid_enc (h.a ∷ h.b ∷ h.ids)) < 256 = rw (← h.shape) h.bytes in
    let t = ber_oid_enc_try_wraps h.a h.b h.ids (omega (arith, h.short)) in
    let m : length (ber_oid_enc (h.a ∷ h.b ∷ h.ids)) % 256
        ≡ length (ber_oid_enc (h.a ∷ h.b ∷ h.ids)) =
      omega arith in
    rw h.shape (t ∙ ap some m, rw q d, rw q (omega (arith, c, h.short)))

pub length-body : (vb : VbOut) → IsReply vb → length (body vb []) ≡ vb.vb_len
unfolding tlv_len
length-body vb h = omega (
  arith,
  h.total,
  length-enc_hdr 0x06 (length (ber_oid_enc vb.oid))
      (ber_oid_enc vb.oid ++ enc_hdr vb.value_type (length vb.value) (vb.value ++ []))
      (omega (arith, h.bytes)),
  length-append {0} (ber_oid_enc vb.oid) (enc_hdr vb.value_type (length vb.value) (vb.value ++ [])),
  length-enc_hdr vb.value_type (length vb.value) (vb.value ++ []) (omega (arith, h.small)),
  length-append {0} {A = ℕ} vb.value [],
)

pub vb_len-small : (vb : VbOut) → IsReply vb → vb.vb_len < 1400
unfolding tlv_len
vb_len-small vb h = omega (
  arith,
  h.total,
  h.bytes,
  h.small,
  (length-ber_length_enc (length (ber_oid_enc vb.oid)) (omega (arith, h.bytes))).2,
  (length-ber_length_enc (length vb.value) (omega (arith, h.small))).2,
)

pub var_bind_alloc-body :
    (vb : VbOut) (rest : List ℕ) → IsReply vb → var_bind_alloc (body vb rest) ≡ ok (as_in vb) rest
unfolding var_bind_alloc enc_hdr oid_value
var_bind_alloc-body vb rest h =
    let (t, d, c) = oid_bytes vb h in
    let tail = ber_length_enc (length vb.value) ++ (vb.value ++ rest) in
    rw
      (
        expect_lem 0x06 err_vb_oid_type (
            ber_length_enc (length (ber_oid_enc vb.oid))
            ++ (ber_oid_enc vb.oid ++ (vb.value_type ∷ tail))),
        dec_length-enc (length (ber_oid_enc vb.oid)) (ber_oid_enc vb.oid ++ (vb.value_type ∷ tail))
            (omega (arith, h.bytes)),
        take_bytes-append (ber_oid_enc vb.oid) (vb.value_type ∷ tail) (length (ber_oid_enc vb.oid))
            refl,
        le→leb (ber_value_dec_try 0x06 (ber_oid_enc vb.oid)) 64 c,
        read_byte_lem vb.value_type tail,
        dec_length-enc (length vb.value) (vb.value ++ rest) (omega (arith, h.small)),
        le→leb (length vb.value) 1024 h.small,
        take_bytes-append vb.value rest (length vb.value) refl,
        d,
      )
      refl
