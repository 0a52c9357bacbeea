-- ===== src/Snmp/RoundTrip/Headers.antt =====
-- The headers of a response are decoded to themselves.
use smartsnmp.Base.{
  ℕ, ◌≡◌, ◌≤◌, ◌<◌, refl, List, [], ◌∷◌, ◌++◌, none, some, Option, length, arith, le→leb, true,
  false,
}
use smartsnmp.Base.Bytes.{IsU32}
use smartsnmp.Ber.Length.{ber_length_enc}
use smartsnmp.Snmp.Packet.{
  err_global_data_len, err_global_id, err_global_size, err_global_flags, err_global_model,
  err_security_str, err_security_seq, err_security_engine_id, err_security_engine_id_len,
  err_security_engine_boots, err_security_engine_time, err_security_user_name,
  err_security_user_name_len, err_security_auth_para, err_security_auth_para_len,
  err_security_priv_para_len, err_scope_pdu_seq, err_context_id, err_context_id_len, err_pdu_reqid,
  err_pdu_errstat, err_pdu_erridx,
}
use smartsnmp.Snmp.Packet.{V3, PduHdr, is_v3}
use smartsnmp.Snmp.Parser.{ok}
use smartsnmp.Snmp.Parser.Laws.{expect_lem, dec_length-enc, take_bytes-append}
use smartsnmp.Snmp.MsgIn.{
  pdu_hdr_parse, flags_field, global_data_decode, security_parameter_decode, v3_decode, v3_part,
}
use smartsnmp.Snmp.MsgOut.{
  snmpv3_engine_id, enc_hdr, enc_int, enc_str, no_flags, pdu_len, pdu_encode, global_data_encode,
  global_data_encode_try, security_parameter_encode, security_parameter_encode_try, secur_str_len,
  v3_encode,
}
use smartsnmp.Snmp.RoundTrip.Fields.{
  expect-enc_hdr, read_byte-enc_hdr, IsExact, int_field-enc_int, str_field-enc_str,
}

pub record IsExactPdu (ph : PduHdr) : Type 0 where
  pub req_id : IsExact ph.req_id
  pub err_stat : IsExact ph.err_stat
  pub err_idx : IsExact ph.err_idx

pub pdu_hdr_parse-pdu_encode :
    (ph : PduHdr) (len : ℕ) (bs : List ℕ)
    → IsExactPdu ph
    → pdu_hdr_parse (pdu_encode ph len bs) ≡ ok ph (enc_hdr 0x30 len bs)
unfolding pdu_hdr_parse pdu_encode
pdu_hdr_parse-pdu_encode ph len bs h =
    let vb_list = enc_hdr 0x30 len bs in
    let stat = enc_int ph.err_stat (enc_int ph.err_idx vb_list) in
    let small : IsU32 (pdu_len ph len) = unfold pdu_len in omega arith in
    rw
      (
        read_byte-enc_hdr ph.pdu_type (pdu_len ph len) (enc_int ph.req_id stat),
        dec_length-enc (pdu_len ph len) (enc_int ph.req_id stat) small,
        int_field-enc_int err_pdu_reqid ph.req_id stat h.req_id,
        int_field-enc_int err_pdu_errstat ph.err_stat (enc_int ph.err_idx vb_list) h.err_stat,
        int_field-enc_int err_pdu_erridx ph.err_idx vb_list h.err_idx,
      )
      refl

-- What a response can carry of a message of version 3.
pub record IsAnswerable (v : V3) : Type 0 where
  pub msg_id : IsExact v.global_data.msg_id
  pub msg_max_size : IsExact v.global_data.msg_max_size
  pub msg_flags : length v.global_data.msg_flags ≤ 1
  pub msg_security_model : IsExact v.global_data.msg_security_model
  pub engine_boots : IsExact v.security.engine_boots
  pub engine_time : IsExact v.security.engine_time
  pub user_name : length v.security.user_name < 41
  pub auth_para : length v.security.auth_para < 41
  pub priv_para : length v.security.priv_para < 41

-- The response clears the flags and names the engine of the agent.
unfoldable pub answered_v3 : V3 → V3
unfolding no_flags
answered_v3 v = record {
  global_data = record v.global_data { msg_flags = no_flags v.global_data.msg_flags };
  security = record v.security { engine_id = snmpv3_engine_id };
  context_id = snmpv3_engine_id;
}

flags_field-enc_str :
    (flags bs : List ℕ) → length flags ≤ 1 → flags_field (enc_str flags bs) ≡ ok flags bs
unfolding flags_field enc_str
flags_field-enc_str flags bs h =
    rw
      (
        expect_lem 0x04 err_global_flags (ber_length_enc (length flags) ++ (flags ++ bs)),
        dec_length-enc (length flags) (flags ++ bs) (omega arith),
        take_bytes-append flags bs (length flags) refl,
        le→leb (length flags) 4 (omega (arith, h)),
      )
      refl

pub length-no_flags : (flags : List ℕ) → length (no_flags flags) ≡ length flags
unfolding no_flags
length-no_flags [] = refl
length-no_flags (b ∷ bs) = refl

global_data_back :
    (v : V3) (bs : List ℕ)
    → IsAnswerable v
    → global_data_decode (
        enc_int v.global_data.msg_id (
          enc_int v.global_data.msg_max_size (
            enc_str
              (no_flags v.global_data.msg_flags)
              (enc_int v.global_data.msg_security_model bs))))
      ≡ ok (answered_v3 v).global_data bs
unfolding global_data_decode answered_v3
global_data_back v bs h =
    let g = v.global_data in
    let model = enc_int g.msg_security_model bs in
    let flags = enc_str (no_flags g.msg_flags) model in
    rw
      (
        int_field-enc_int err_global_id g.msg_id (enc_int g.msg_max_size flags) h.msg_id,
        int_field-enc_int err_global_size g.msg_max_size flags h.msg_max_size,
        flags_field-enc_str (no_flags g.msg_flags) model
            (omega (arith, length-no_flags g.msg_flags, h.msg_flags)),
        int_field-enc_int err_global_model g.msg_security_model bs h.msg_security_model,
      )
      refl

security_back :
    (v : V3) (bs : List ℕ)
    → IsAnswerable v
    → security_parameter_decode (
        enc_hdr 0x04
          (secur_str_len v)
          (security_parameter_encode (security_parameter_encode_try v.security) v.security bs))
      ≡ ok (answered_v3 v).security bs
unfolding security_parameter_decode security_parameter_encode answered_v3
security_back v bs h =
    let s = v.security in
    let priv = enc_str s.priv_para bs in
    let auth = enc_str s.auth_para priv in
    let user = enc_str s.user_name auth in
    let time = enc_int s.engine_time user in
    let boots = enc_int s.engine_boots time in
    let para = enc_str snmpv3_engine_id boots in
    let para_len = security_parameter_encode_try s in
    let seq = enc_hdr 0x30 para_len para in
    let small : IsU32 (secur_str_len v) = unfold secur_str_len in omega arith in
    let small' : IsU32 para_len = unfold security_parameter_encode_try in omega arith in
    rw
      (
        expect-enc_hdr 0x04 err_security_str (secur_str_len v) seq,
        dec_length-enc (secur_str_len v) seq small,
        expect-enc_hdr 0x30 err_security_seq para_len para,
        dec_length-enc para_len para small',
        str_field-enc_str err_security_engine_id err_security_engine_id_len 33 snmpv3_engine_id
            boots (omega arith) (omega arith),
        int_field-enc_int err_security_engine_boots s.engine_boots time h.engine_boots,
        int_field-enc_int err_security_engine_time s.engine_time user h.engine_time,
        str_field-enc_str err_security_user_name err_security_user_name_len 41 s.user_name auth
            h.user_name (omega arith),
        str_field-enc_str err_security_auth_para err_security_auth_para_len 41 s.auth_para priv
            h.auth_para (omega arith),
        str_field-enc_str err_security_engine_time err_security_priv_para_len 41 s.priv_para bs
            h.priv_para (omega arith),
      )
      refl

v3_back :
    (v : V3) (scope : ℕ) (bs : List ℕ)
    → IsAnswerable v
    → IsU32 scope
    → v3_decode (v3_encode (some v) scope bs) ≡ ok (answered_v3 v) bs
unfolding v3_decode v3_encode global_data_encode
v3_back v scope bs h lt =
    let context = enc_str snmpv3_engine_id bs in
    let pdu = enc_hdr 0x30 scope context in
    let g = v.global_data in
    let msg_len = global_data_encode_try g in
    let sec =
      enc_hdr 0x04 (secur_str_len v)
        (security_parameter_encode (security_parameter_encode_try v.security) v.security pdu) in
    let glob = enc_int g.msg_id (
      enc_int g.msg_max_size (enc_str (no_flags g.msg_flags) (enc_int g.msg_security_model sec))) in
    let small : IsU32 msg_len = unfold global_data_encode_try in omega arith in
    rw
      (
        expect-enc_hdr 0x30 err_global_data_len msg_len glob,
        dec_length-enc msg_len glob small,
        global_data_back v sec h,
        security_back v pdu h,
        expect-enc_hdr 0x30 err_scope_pdu_seq scope context,
        dec_length-enc scope context lt,
        str_field-enc_str err_context_id err_context_id_len 33 snmpv3_engine_id bs (omega arith)
            (omega arith),
      )
      (unfold answered_v3 in refl)

-- The fields of version 3 are there exactly for version 3, and can be answered.
abbrev pub V3Fits : ℕ → Option V3 → Type 0
V3Fits version none = is_v3 version ≡ false
V3Fits version (some v) = (is_v3 version ≡ true) × IsAnswerable v

unfoldable pub answered_part : Option V3 → Option V3
unfolding answered_v3
answered_part none = none
answered_part (some v) = some (answered_v3 v)

pub v3_part-v3_encode :
    (version : ℕ) (v3 : Option V3) (scope : ℕ) (bs : List ℕ)
    → V3Fits version v3
    → IsU32 scope
    → v3_part version (v3_encode v3 scope bs) ≡ ok (answered_part v3) bs
unfolding v3_part answered_part
v3_part-v3_encode version none scope bs h lt = rw h (unfold v3_encode in refl)
v3_part-v3_encode version (some v) scope bs (e, h) lt = rw (e, v3_back v scope bs h lt) refl
