-- ===== src/Snmp/MsgOut.antt =====
-- The builder of responses, core/snmp_msg_out.c. Sums of lengths are sums on `uint32_t`, reduced once.
-- The strings that a response of version 3 has in place of the received ones are `snmpv3_engine_id`.
pub mod Size
pub mod Behind
pub mod Version3
pub mod Total
use smartsnmp.Base.{ℕ, zero, suc, ◌+◌, ◌%◌, List, [], ◌∷◌, ◌++◌, Option, none, some}
use smartsnmp.Base.{length}
use smartsnmp.Base.Bytes.{u32_mod}
use smartsnmp.Ber.Integer.{ber_int_enc}
use smartsnmp.Ber.Length.{ber_length_enc, ber_length_enc_try}
use smartsnmp.Ber.ObjectId.{ber_oid_enc, ber_oid_enc_try}
use smartsnmp.Snmp.Packet.{Field, GlobalData, Security, V3, PduHdr, Datagram}

abbrev pub snmpv3_engine_id : List ℕ
snmpv3_engine_id =
    0x80 ∷ 0 ∷ 0 ∷ 0 ∷ 0x04 ∷ 0x53 ∷ 0x6d ∷ 0x61 ∷ 0x72 ∷ 0x74 ∷ 0x53 ∷ 0x4e ∷ 0x4d ∷ 0x50 ∷ []

-- A variable binding of a response: the value as bytes.
pub record VbOut : Type 0 where
  pub oid : List ℕ
  pub vb_len : ℕ
  pub value_type : ℕ
  pub value : List ℕ

-- `tag_len + len_len + len`
unfoldable pub tlv_len : ℕ → ℕ
tlv_len n = 1 + ber_length_enc_try n + n

unfoldable pub global_data_encode_try : GlobalData → ℕ
global_data_encode_try g =
    (tlv_len g.msg_id.len
      + tlv_len g.msg_max_size.len
      + tlv_len (length g.msg_flags)
      + tlv_len g.msg_security_model.len)
    % u32_mod

unfoldable pub security_parameter_encode_try : Security → ℕ
security_parameter_encode_try s =
    (tlv_len (length snmpv3_engine_id)
      + tlv_len s.engine_boots.len
      + tlv_len s.engine_time.len
      + tlv_len (length s.user_name)
      + tlv_len (length s.auth_para)
      + tlv_len (length s.priv_para))
    % u32_mod

-- `tag ∷ length` and what they announce.
unfoldable pub enc_hdr : ℕ → ℕ → List ℕ → List ℕ
enc_hdr tag len bs = tag ∷ (ber_length_enc len ++ bs)

-- An integer: the length is the one that was received, the bytes are those of the value.
unfoldable pub enc_int : Field → List ℕ → List ℕ
unfolding enc_hdr
enc_int f bs = enc_hdr 0x02 f.len (ber_int_enc f.val ++ bs)

unfoldable pub enc_str : List ℕ → List ℕ → List ℕ
unfolding enc_hdr
enc_str s bs = enc_hdr 0x04 (length s) (s ++ bs)

-- `sdg->msg_flags = 0;` clears the first of the `msg_flags_len` bytes that are written.
unfoldable pub no_flags : List ℕ → List ℕ
no_flags [] = []
no_flags (b ∷ bs) = 0 ∷ bs

-- The bytes in front of `bs`.
unfoldable pub global_data_encode : ℕ → GlobalData → List ℕ → List ℕ
global_data_encode msg_len g bs = enc_hdr 0x30 msg_len (
    enc_int g.msg_id
      (enc_int g.msg_max_size (enc_str (no_flags g.msg_flags) (enc_int g.msg_security_model bs))))

unfoldable pub security_parameter_encode : ℕ → Security → List ℕ → List ℕ
security_parameter_encode secur_para_len s bs = enc_hdr 0x30 secur_para_len (
    enc_str snmpv3_engine_id (
      enc_int s.engine_boots (
        enc_int s.engine_time
          (enc_str s.user_name (enc_str s.auth_para (enc_str s.priv_para bs))))))

unfoldable pub pdu_len : PduHdr → ℕ → ℕ
pdu_len ph vb_list_len =
    (tlv_len vb_list_len + tlv_len ph.req_id.len + tlv_len ph.err_stat.len + tlv_len ph.err_idx.len)
    % u32_mod

-- `scope_len` before the fields of version 3.
unfoldable pub pdu_scope_len : Datagram → ℕ → ℕ
pdu_scope_len sdg vb_list_len =
    (tlv_len (pdu_len sdg.pdu_hdr vb_list_len) + tlv_len (length sdg.context_name)) % u32_mod

-- `scope_len`
unfoldable pub scope_len : Option V3 → ℕ → ℕ
scope_len none pdu_scope = pdu_scope
scope_len (some v) pdu_scope = (pdu_scope + tlv_len (length snmpv3_engine_id)) % u32_mod

unfoldable pub secur_str_len : V3 → ℕ
secur_str_len v = tlv_len (security_parameter_encode_try v.security) % u32_mod

-- What the header of version 3 adds to `data_len`.
unfoldable pub v3_len : Option V3 → ℕ → ℕ
v3_len none scope = 0
v3_len (some v) scope =
    (tlv_len (global_data_encode_try v.global_data)
      + tlv_len (secur_str_len v)
      + (1 + ber_length_enc_try scope))
    % u32_mod

unfoldable pub data_len : Datagram → ℕ → ℕ
data_len sdg vb_list_len =
    let scope = scope_len sdg.v3 (pdu_scope_len sdg vb_list_len) in
    (v3_len sdg.v3 scope + scope + tlv_len sdg.version.len) % u32_mod

unfoldable pub v3_encode : Option V3 → ℕ → List ℕ → List ℕ
v3_encode none scope bs = bs
v3_encode (some v) scope bs =
    global_data_encode (global_data_encode_try v.global_data) v.global_data (
      enc_hdr 0x04 (secur_str_len v) (
        security_parameter_encode (security_parameter_encode_try v.security) v.security
          (enc_hdr 0x30 scope (enc_str snmpv3_engine_id bs))))

unfoldable pub pdu_encode : PduHdr → ℕ → List ℕ → List ℕ
pdu_encode ph vb_list_len bs =
    enc_hdr ph.pdu_type (pdu_len ph vb_list_len)
      (enc_int ph.req_id (enc_int ph.err_stat (enc_int ph.err_idx (enc_hdr 0x30 vb_list_len bs))))

unfoldable pub asn1_encode : Datagram → ℕ → List ℕ → List ℕ
asn1_encode sdg vb_list_len bs = enc_hdr 0x30 (data_len sdg vb_list_len) (
    enc_int sdg.version (
      v3_encode sdg.v3 (scope_len sdg.v3 (pdu_scope_len sdg vb_list_len))
        (enc_str sdg.context_name (pdu_encode sdg.pdu_hdr vb_list_len bs))))

-- The loop of `snmp_response`; `none` is an object identifier on which `ber_oid_enc_try` does not end.
unfoldable pub enc_vbs : List VbOut → Option (List ℕ)
enc_vbs [] = some []
enc_vbs (vb ∷ vbs) = elim (ber_oid_enc_try vb.oid) [
  | none ↦ none
  | some oid_len ↦ elim (enc_vbs vbs) [
    | none ↦ none
    | some rest ↦ some (
        enc_hdr 0x30 vb.vb_len (
          enc_hdr 0x06 oid_len
            (ber_oid_enc vb.oid ++ enc_hdr vb.value_type (length vb.value) (vb.value ++ rest))))
  ]
]

-- What is sent: the size of `send_buf`, allocated and sent, and the bytes that are written to it.
pub record Sent : Type 0 where
  pub size : ℕ
  pub bytes : List ℕ

unfoldable pub snmp_response : Datagram → ℕ → List VbOut → Option Sent
snmp_response sdg vb_list_len vbs = elim (enc_vbs vbs) [
  | none ↦ none
  | some bs ↦ some record {
    size = tlv_len (data_len sdg vb_list_len) % u32_mod;
    bytes = asn1_encode sdg vb_list_len bs;
  }
]
