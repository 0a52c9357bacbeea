-- ===== src/Snmp/RoundTrip/Response.antt =====
-- A whole response of core/snmp_msg_out.c, as `snmpd_recv` of core/snmp_msg_in.c reads it.
use smartsnmp.Base.{
  ℕ, ◌+◌, ◌%◌, ◌≡◌, ◌≤◌, ◌<◌, ◌∙◌, refl, List, [], ◌∷◌, none, some, Option, length, arith, ==_refl,
  All,
}
use mathlib.Core.List.{map}
use smartsnmp.Base.Bytes.{IsU32, u32_mod}
use smartsnmp.Ber.Length.{ber_length_enc}
use smartsnmp.Ber.Length.Laws.{length-ber_length_enc}
use smartsnmp.Snmp.Packet.{
  Datagram, V3, err_pdu_type, err_version, err_context_name, err_context_name_len, err_vb_list_seq,
}
use smartsnmp.Snmp.Parser.{ok}
use smartsnmp.Snmp.Parser.Laws.{dec_length-enc, dec_length_size-enc}
use smartsnmp.Snmp.MsgIn.{var_bind_parse, var_binds, snmp_decode, snmpd_recv}
use smartsnmp.Snmp.MsgOut.{
  VbOut, Sent, tlv_len, enc_hdr, enc_int, enc_str, scope_len, pdu_scope_len, pdu_encode, v3_encode,
  data_len, asn1_encode, snmp_response,
}
use smartsnmp.Snmp.MsgOut.Size.{tlv_len_lem}
use smartsnmp.Snmp.MsgOut.Version3.{ShortStrings}
use smartsnmp.Snmp.MsgOut.Total.{size, length-asn1_encode, IsU32-scope_len}
use smartsnmp.Snmp.RoundTrip.Fields.{
  expect-enc_hdr, read_byte-enc_hdr, IsExact, int_field-enc_int, str_field-enc_str,
}
use smartsnmp.Snmp.RoundTrip.Bound.{asn1_le, lens-exact}
use smartsnmp.Snmp.RoundTrip.VarBinds.{IsReply, as_in, list_len}
use smartsnmp.Snmp.RoundTrip.Loop.{enc_vbs-IsReply}
use smartsnmp.Snmp.RoundTrip.Headers.{
  IsExactPdu, pdu_hdr_parse-pdu_encode, V3Fits, answered_part, v3_part-v3_encode,
}

-- A datagram whose response can be read back: every integer has the length of its shortest form, the
-- context name is below 41 bytes, and the fields of version 3 are there exactly for version 3.
pub record IsAnswered (sdg : Datagram) : Type 0 where
  pub version : IsExact sdg.version
  pub fits : V3Fits sdg.version.val sdg.v3
  pub name : length sdg.context_name < 41
  pub pdu : IsExactPdu sdg.pdu_hdr

-- What the response says.
unfoldable pub answered : Datagram → List VbOut → Datagram
unfolding answered_part
answered sdg vbs = record {
  version = sdg.version;
  v3 = answered_part sdg.v3;
  context_name = sdg.context_name;
  pdu_hdr = sdg.pdu_hdr;
  vb_in_list = map as_in vbs;
}

length-le-list_len : (vbs : List VbOut) → length vbs ≤ list_len vbs
unfolding list_len
length-le-list_len [] = omega arith
length-le-list_len (vb ∷ vbs) = omega (arith, length-le-list_len vbs, tlv_len_lem vb.vb_len)

var_bind_parse-enc_vbs :
    (vbs : List VbOut) (bs : List ℕ)
    → IsU32 (list_len vbs)
    → length bs ≡ list_len vbs
    → ((fuel : ℕ)
        → length vbs < fuel
        → list_len vbs < u32_mod
        → var_binds fuel (list_len vbs) bs ≡ ok (map as_in vbs) [])
    → var_bind_parse (enc_hdr 0x30 (list_len vbs) bs) ≡ ok (map as_in vbs) []
unfolding var_bind_parse
var_bind_parse-enc_vbs vbs bs h e back =
    rw (expect-enc_hdr 0x30 err_vb_list_seq (list_len vbs) bs, dec_length-enc (list_len vbs) bs h)
      (back (length bs + 1) (omega (arith, length-le-list_len vbs)) h)

-- The decoder on a response.
decode_back :
    (sdg : Datagram) (vbs : List VbOut) (bs : List ℕ)
    → IsAnswered sdg
    → IsU32 (list_len vbs)
    → var_bind_parse (enc_hdr 0x30 (list_len vbs) bs) ≡ ok (map as_in vbs) []
    → snmp_decode (asn1_encode sdg (list_len vbs) bs) ≡ ok (answered sdg vbs) []
unfolding snmp_decode asn1_encode
decode_back sdg vbs bs h small e =
    let len = list_len vbs in
    let pdu = pdu_encode sdg.pdu_hdr len bs in
    let name = enc_str sdg.context_name pdu in
    let scope = scope_len sdg.v3 (pdu_scope_len sdg len) in
    let head = v3_encode sdg.v3 scope name in
    let inner : IsU32 (pdu_scope_len sdg len) = unfold pdu_scope_len in omega arith in
    let all : IsU32 (data_len sdg len) = unfold data_len in omega arith in
    rw
      (
        read_byte-enc_hdr 0x30 (data_len sdg len) (enc_int sdg.version head),
        dec_length-enc (data_len sdg len) (enc_int sdg.version head) all,
        int_field-enc_int err_version sdg.version head h.version,
        v3_part-v3_encode sdg.version.val sdg.v3 scope name h.fits (IsU32-scope_len sdg.v3 _ inner),
        str_field-enc_str err_context_name err_context_name_len 41 sdg.context_name pdu h.name
            (omega arith),
        pdu_hdr_parse-pdu_encode sdg.pdu_hdr len bs h.pdu,
        e,
      )
      (unfold answered in refl)

V3Fits-ShortStrings : (version : ℕ) (v3 : Option V3) → V3Fits version v3 → ShortStrings v3
V3Fits-ShortStrings version none h = tt
V3Fits-ShortStrings version (some v) (e, h) = (
  omega (arith, h.msg_flags),
  omega (arith, h.user_name),
  omega (arith, h.auth_para),
  omega (arith, h.priv_para),
)

-- The two checks of `snmpd_recv` hold for a buffer of the size that is announced.
recv_lem :
    (n : ℕ) (rest : List ℕ)
    → IsU32 n
    → length (enc_hdr 0x30 n rest) ≡ tlv_len n % u32_mod
    → snmpd_recv (enc_hdr 0x30 n rest) ≡ snmp_decode (enc_hdr 0x30 n rest)
unfolding snmpd_recv
recv_lem n rest h e =
    let l = (length-ber_length_enc n h).0 in
    let t : (1 + length (ber_length_enc n) + n) % u32_mod ≡ length (enc_hdr 0x30 n rest) =
      omega (arith, tlv_len_lem n, e, l) in
    rw
      (
        expect-enc_hdr 0x30 err_pdu_type n rest,
        dec_length_size-enc n rest h,
        t,
        ==_refl (length (enc_hdr 0x30 n rest)),
      )
      refl

recv_asn1 :
    (sdg : Datagram) (n : ℕ) (bs : List ℕ)
    → length (asn1_encode sdg n bs) ≡ size sdg n
    → snmpd_recv (asn1_encode sdg n bs) ≡ snmp_decode (asn1_encode sdg n bs)
unfolding asn1_encode
recv_asn1 sdg n bs e = recv_lem (data_len sdg n) _ (unfold data_len in omega arith) e

-- The response to a datagram whose integers are 32-bit words with the lengths of their shortest forms, whose
-- context name is below 41 bytes and whose fields of version 3, there exactly for version 3, are in their bounds,
-- with bindings below 2 GB in all that can be read back (`IsReply`: an object identifier a.b.… of 2 to 64 32-bit
-- words with b < 40 and a * 40 + b < 256, encoded in less than 256 bytes, a value of at most 1024 bytes, and the
-- length of both): it is built, exactly as long as the size that is sent, and received by `snmpd_recv` as the same
-- version and header, the agent's engine in version 3, and the same bindings, with nothing left.
pub snmpd_recv-snmp_response :
    (sdg : Datagram) (vbs : List VbOut)
    → IsAnswered sdg
    → All IsReply vbs
    → list_len vbs < 0x7fff_0000
    → (sent : Sent) × (snmp_response sdg (list_len vbs) vbs ≡ some sent)
      × (length sent.bytes ≡ sent.size)
      × (snmpd_recv sent.bytes ≡ ok (answered sdg vbs) [])
unfolding snmp_response
snmpd_recv-snmp_response sdg vbs h all lt =
    let (bs, enc, len, back) = enc_vbs-IsReply vbs all in
    let small : IsU32 (list_len vbs) = omega arith in
    let (same, few) = lens-exact sdg h.fits h.version h.pdu in
    let le = asn1_le sdg (list_len vbs) bs h.fits h.version h.pdu h.name small in
    let counted =
      length-asn1_encode sdg (list_len vbs) bs small len (omega (arith, h.name))
        (V3Fits-ShortStrings sdg.version.val sdg.v3 h.fits) (omega arith) in
    let fit : length (asn1_encode sdg (list_len vbs) bs) ≡ size sdg (list_len vbs) = omega arith in
    (
      record { size = size sdg (list_len vbs); bytes = asn1_encode sdg (list_len vbs) bs },
      rw (snmp_response, enc) refl,
      fit,
      recv_asn1 sdg (list_len vbs) bs fit
          ∙ decode_back sdg vbs bs h small (var_bind_parse-enc_vbs vbs bs small len back),
    )
