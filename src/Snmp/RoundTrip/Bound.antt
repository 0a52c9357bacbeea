-- ===== src/Snmp/RoundTrip/Bound.antt =====
-- What the headers of a response add to its bindings, at most.
use smartsnmp.Base.{
  ℕ, ◌+◌, ◌≡◌, ◌≤◌, ◌<◌, refl, List, length-append, ◌++◌, none, some, Option, length, arith,
}
use smartsnmp.Base.Bytes.{IsU32}
use smartsnmp.Ber.Integer.{ber_int_enc}
use smartsnmp.Ber.Integer.Size.{length-ber_int_enc}
use smartsnmp.Ber.Length.Laws.{length-ber_length_enc}
use smartsnmp.Snmp.Packet.{Field, V3, PduHdr, Datagram}
use smartsnmp.Snmp.MsgOut.{
  snmpv3_engine_id, enc_hdr, enc_int, enc_str, no_flags, pdu_len, pdu_encode, pdu_scope_len,
  scope_len, secur_str_len, v3_encode, data_len, asn1_encode, global_data_encode,
  global_data_encode_try, security_parameter_encode, security_parameter_encode_try,
}
use smartsnmp.Snmp.MsgOut.Size.{length-enc_hdr}
use smartsnmp.Snmp.MsgOut.Version3.{v3_lens, v3_reals}
use smartsnmp.Snmp.MsgOut.Total.{lens, reals, IsU32-scope_len}
use smartsnmp.Snmp.RoundTrip.Fields.{IsExact}
use smartsnmp.Snmp.RoundTrip.Headers.{IsExactPdu, IsAnswerable, V3Fits, length-no_flags}

hdr_le : (tag n : ℕ) (bs : List ℕ) → IsU32 n → length (enc_hdr tag n bs) ≤ length bs + 6
hdr_le tag n bs h = omega (arith, length-enc_hdr tag n bs h, (length-ber_length_enc n h).2)

pub IsExact-small : (f : Field) → IsExact f → f.len ≤ 4
IsExact-small f h = omega (arith, h.exact, length-ber_int_enc f.val h.word)

int_le : (f : Field) (bs : List ℕ) → IsExact f → length (enc_int f bs) ≤ length bs + 10
unfolding enc_int
int_le f bs h =
    let small = IsExact-small f h in
    omega (
      arith,
      h.exact,
      hdr_le 0x02 f.len (ber_int_enc f.val ++ bs) (omega arith),
      length-append {0} (ber_int_enc f.val) bs,
    )

str_le : (s bs : List ℕ) → length s < 41 → length (enc_str s bs) ≤ length bs + 46
unfolding enc_str
str_le s bs h =
    omega (arith, hdr_le 0x04 (length s) (s ++ bs) (omega arith), length-append {0} s bs)

pdu_le :
    (ph : PduHdr) (n : ℕ) (bs : List ℕ)
    → IsExactPdu ph
    → IsU32 n
    → length (pdu_encode ph n bs) ≤ length bs + 42
unfolding pdu_encode
pdu_le ph n bs h lt =
    let list = enc_hdr 0x30 n bs in
    let idx = enc_int ph.err_idx list in
    let stat = enc_int ph.err_stat idx in
    let small : IsU32 (pdu_len ph n) = unfold pdu_len in omega arith in
    omega (
      arith,
      hdr_le 0x30 n bs lt,
      int_le ph.err_idx list h.err_idx,
      int_le ph.err_stat idx h.err_stat,
      int_le ph.req_id stat h.req_id,
      hdr_le ph.pdu_type (pdu_len ph n) (enc_int ph.req_id stat) small,
    )

security_le :
    (v : V3) (n : ℕ) (bs : List ℕ)
    → IsAnswerable v
    → IsU32 n
    → length (security_parameter_encode n v.security bs) ≤ length bs + 210
unfolding security_parameter_encode
security_le v n bs h lt =
    let s = v.security in
    let priv = enc_str s.priv_para bs in
    let auth = enc_str s.auth_para priv in
    let user = enc_str s.user_name auth in
    let time = enc_int s.engine_time user in
    let boots = enc_int s.engine_boots time in
    omega (
      arith,
      str_le s.priv_para bs h.priv_para,
      str_le s.auth_para priv h.auth_para,
      str_le s.user_name auth h.user_name,
      int_le s.engine_time user h.engine_time,
      int_le s.engine_boots time h.engine_boots,
      str_le snmpv3_engine_id boots (omega arith),
      hdr_le 0x30 n (enc_str snmpv3_engine_id boots) lt,
    )

global_le :
    (v : V3) (n : ℕ) (bs : List ℕ)
    → IsAnswerable v
    → IsU32 n
    → length (global_data_encode n v.global_data bs) ≤ length bs + 82
unfolding global_data_encode
global_le v n bs h lt =
    let g = v.global_data in
    let model = enc_int g.msg_security_model bs in
    let flags = enc_str (no_flags g.msg_flags) model in
    let max = enc_int g.msg_max_size flags in
    let one : length (no_flags g.msg_flags) ≤ 1 =
      omega (arith, length-no_flags g.msg_flags, h.msg_flags) in
    omega (
      arith,
      int_le g.msg_security_model bs h.msg_security_model,
      str_le (no_flags g.msg_flags) model (omega arith),
      int_le g.msg_max_size flags h.msg_max_size,
      int_le g.msg_id max h.msg_id,
      hdr_le 0x30 n (enc_int g.msg_id max) lt,
    )

v3_le :
    (version : ℕ) (v3 : Option V3) (n : ℕ) (bs : List ℕ)
    → V3Fits version v3
    → IsU32 n
    → length (v3_encode v3 n bs) ≤ length bs + 350
unfolding v3_encode
v3_le version none n bs h lt = omega arith
v3_le version (some v) n bs (e, h) lt =
    let context = enc_str snmpv3_engine_id bs in
    let scope = enc_hdr 0x30 n context in
    let para =
      security_parameter_encode (security_parameter_encode_try v.security) v.security scope in
    let str_small : IsU32 (secur_str_len v) = unfold secur_str_len in omega arith in
    let para_small : IsU32 (security_parameter_encode_try v.security) =
      unfold security_parameter_encode_try in omega arith in
    let msg_small : IsU32 (global_data_encode_try v.global_data) =
      unfold global_data_encode_try in omega arith in
    omega (
      arith,
      str_le snmpv3_engine_id bs (omega arith),
      hdr_le 0x30 n context lt,
      security_le v (security_parameter_encode_try v.security) scope h para_small,
      hdr_le 0x04 (secur_str_len v) para str_small,
      global_le v (global_data_encode_try v.global_data) (enc_hdr 0x04 (secur_str_len v) para) h
          msg_small,
    )

pub asn1_le :
    (sdg : Datagram) (n : ℕ) (bs : List ℕ)
    → V3Fits sdg.version.val sdg.v3
    → IsExact sdg.version
    → IsExactPdu sdg.pdu_hdr
    → length sdg.context_name < 41
    → IsU32 n
    → length (asn1_encode sdg n bs) ≤ length bs + 500
unfolding asn1_encode
asn1_le sdg n bs fits version pdu name lt =
    let inner = pdu_encode sdg.pdu_hdr n bs in
    let named = enc_str sdg.context_name inner in
    let scope = scope_len sdg.v3 (pdu_scope_len sdg n) in
    let head = v3_encode sdg.v3 scope named in
    let small : IsU32 (data_len sdg n) = unfold data_len in omega arith in
    let scope_small : IsU32 (pdu_scope_len sdg n) = unfold pdu_scope_len in omega arith in
    omega (
      arith,
      pdu_le sdg.pdu_hdr n bs pdu lt,
      str_le sdg.context_name inner name,
      v3_le sdg.version.val sdg.v3 scope named fits
          (IsU32-scope_len sdg.v3 (pdu_scope_len sdg n) scope_small),
      int_le sdg.version head version,
      hdr_le 0x30 (data_len sdg n) (enc_int sdg.version head) small,
    )

v3_lens-exact :
    (version : ℕ) (v3 : Option V3)
    → V3Fits version v3
    → (v3_lens v3 ≡ v3_reals v3) × (v3_lens v3 ≤ 20)
v3_lens-exact version none h = (refl, omega arith)
v3_lens-exact version (some v) (e, h) =
    let g = v.global_data in
    let s = v.security in
    let g1 = IsExact-small g.msg_id h.msg_id in
    let g2 = IsExact-small g.msg_max_size h.msg_max_size in
    let g3 = IsExact-small g.msg_security_model h.msg_security_model in
    let s1 = IsExact-small s.engine_boots h.engine_boots in
    let s2 = IsExact-small s.engine_time h.engine_time in
    let e1 = h.msg_id.exact in
    let e2 = h.msg_max_size.exact in
    let e3 = h.msg_security_model.exact in
    let e4 = h.engine_boots.exact in let e5 = h.engine_time.exact in (omega arith, omega arith)

-- The lengths received are those of the shortest forms, and small.
pub lens-exact :
    (sdg : Datagram)
    → V3Fits sdg.version.val sdg.v3
    → IsExact sdg.version
    → IsExactPdu sdg.pdu_hdr
    → (lens sdg ≡ reals sdg) × (lens sdg ≤ 50)
lens-exact sdg fits version pdu =
    let ph = sdg.pdu_hdr in
    let p1 = IsExact-small ph.req_id pdu.req_id in
    let p2 = IsExact-small ph.err_stat pdu.err_stat in
    let p3 = IsExact-small ph.err_idx pdu.err_idx in
    let v = IsExact-small sdg.version version in
    let e1 = pdu.req_id.exact in
    let e2 = pdu.err_stat.exact in
    let e3 = pdu.err_idx.exact in
    let e = version.exact in
    let (a, b) = v3_lens-exact sdg.version.val sdg.v3 fits in (omega arith, omega arith)
