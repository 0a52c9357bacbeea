-- ===== src/Snmp/MsgOut/Total.antt =====
-- The size that `snmp_response` of core/snmp_msg_out.c allocates and sends, against the bytes that it
-- writes.
use smartsnmp.Base.{ℕ, ◌+◌, ◌%◌, ◌≡◌, ◌<◌, List, Option, none, some, length, arith}
use smartsnmp.Base.Bytes.{IsU32, u32_mod}
use smartsnmp.Snmp.Packet.{V3, Datagram}
use smartsnmp.Snmp.MsgOut.{
  tlv_len, enc_int, enc_str, pdu_encode, pdu_scope_len, scope_len, v3_encode, data_len, asn1_encode,
}
use smartsnmp.Snmp.MsgOut.Size.{
  real, pdu_lens, pdu_reals, tlv_len_lem, length-enc_hdr, length-enc_int, length-enc_str,
  length-pdu_encode,
}
use smartsnmp.Snmp.MsgOut.Version3.{v3_lens, v3_reals, ShortStrings, length-v3_encode}
use smartsnmp.Snmp.MsgOut.Behind.{behind_v3}

-- The lengths that the headers announce for integers, as they were received.
abbrev pub lens : Datagram → ℕ
lens sdg = sdg.version.len + v3_lens sdg.v3 + pdu_lens sdg.pdu_hdr

-- The bytes that these integers take.
abbrev pub reals : Datagram → ℕ
reals sdg = real sdg.version + v3_reals sdg.v3 + pdu_reals sdg.pdu_hdr

-- The size of the message that `asn1_encode` announces.
abbrev pub size : Datagram → ℕ → ℕ
size sdg vb_list_len = tlv_len (data_len sdg vb_list_len) % u32_mod

pub IsU32-scope_len : (v3 : Option V3) (n : ℕ) → IsU32 n → IsU32 (scope_len v3 n)
unfolding scope_len
IsU32-scope_len none n h = h
IsU32-scope_len (some v) n h = omega arith

-- If the bindings take `vb_list_len` bytes and the message is below 2 GB, the bytes written and the size
-- announced differ by exactly as much as the integers' bytes differ from their received lengths.
pub length-asn1_encode :
    (sdg : Datagram) (vb_list_len : ℕ) (bs : List ℕ)
    → IsU32 vb_list_len
    → length bs ≡ vb_list_len
    → length sdg.context_name < 100
    → ShortStrings sdg.v3
    → length (asn1_encode sdg vb_list_len bs) + lens sdg < 0x7fff_ff00
    → length (asn1_encode sdg vb_list_len bs) + lens sdg ≡ size sdg vb_list_len + reals sdg
unfolding asn1_encode data_len pdu_scope_len
length-asn1_encode sdg len bs hl e hc hs h =
    let pdu = pdu_encode sdg.pdu_hdr len bs in
    let name = enc_str sdg.context_name pdu in
    let inner = pdu_scope_len sdg len in
    let scope = scope_len sdg.v3 inner in
    let head = v3_encode sdg.v3 scope name in
    let small : IsU32 inner = omega arith in
    let all = length-enc_hdr 0x30 (data_len sdg len) (enc_int sdg.version head) (omega arith) in
    let first = length-enc_int sdg.version head (omega arith) in
    let s = length-enc_str sdg.context_name pdu (omega arith) in
    let le = behind_v3 sdg.v3 scope name in
    let ph = length-pdu_encode sdg.pdu_hdr len bs hl e (omega (arith, all, first, s, le)) in
    let v =
      length-v3_encode sdg.v3 inner name hs (IsU32-scope_len sdg.v3 inner small) (omega arith) in
    omega (arith, all, first, v, s, ph, tlv_len_lem (data_len sdg len))
