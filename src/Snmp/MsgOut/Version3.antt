-- ===== src/Snmp/MsgOut/Version3.antt =====
-- The size of the header of version 3 that core/snmp_msg_out.c announces against the bytes that it writes.
use smartsnmp.Base.{
  ℕ, ◌+◌, ◌%◌, ◌≡◌, ◌<◌, List, [], ◌∷◌, ap, refl, Option, none, some, length, arith,
}
use smartsnmp.Base.Bytes.{IsU32, u32_mod}
use smartsnmp.Snmp.Packet.{GlobalData, Security, V3}
use smartsnmp.Snmp.MsgOut.{
  snmpv3_engine_id, tlv_len, enc_hdr, enc_int, enc_str, no_flags, scope_len, global_data_encode,
  global_data_encode_try, security_parameter_encode, security_parameter_encode_try, secur_str_len,
  v3_len, v3_encode,
}
use smartsnmp.Snmp.MsgOut.Size.{real, tlv_len_lem, length-enc_hdr, length-enc_int, length-enc_str}

abbrev pub v3_lens : Option V3 → ℕ
v3_lens none = 0
v3_lens (some v) =
    v.global_data.msg_id.len + v.global_data.msg_max_size.len + v.global_data.msg_security_model.len
    + v.security.engine_boots.len + v.security.engine_time.len

abbrev pub v3_reals : Option V3 → ℕ
v3_reals none = 0
v3_reals (some v) =
    real v.global_data.msg_id
    + real v.global_data.msg_max_size
    + real v.global_data.msg_security_model
    + real v.security.engine_boots
    + real v.security.engine_time

-- The strings of a message of version 3 are shorter than 100 bytes.
abbrev pub ShortStrings : Option V3 → Type 0
ShortStrings none = Unit {0}
ShortStrings (some v) =
    (length v.global_data.msg_flags < 100)
    × (length v.security.user_name < 100)
    × (length v.security.auth_para < 100)
    × (length v.security.priv_para < 100)

length-no_flags : (flags : List ℕ) → length (no_flags flags) ≡ length flags
unfolding no_flags
length-no_flags [] = omega arith
length-no_flags (b ∷ bs) = omega (arith, length-no_flags bs)

length-security :
    (s : Security) (bs : List ℕ)
    → (length s.user_name < 100)
    → (length s.auth_para < 100)
    → (length s.priv_para < 100)
    → length (security_parameter_encode (security_parameter_encode_try s) s bs)
        + s.engine_boots.len
        + s.engine_time.len
      < u32_mod
    → length (security_parameter_encode (security_parameter_encode_try s) s bs)
        + s.engine_boots.len
        + s.engine_time.len
      ≡ tlv_len (security_parameter_encode_try s)
        + real s.engine_boots
        + real s.engine_time
        + length bs
unfolding security_parameter_encode security_parameter_encode_try
length-security s bs hu ha hp h =
    let priv = enc_str s.priv_para bs in
    let auth = enc_str s.auth_para priv in
    let user = enc_str s.user_name auth in
    let time = enc_int s.engine_time user in
    let boots = enc_int s.engine_boots time in
    let small : IsU32 (security_parameter_encode_try s) = omega arith in
    omega (
      arith,
      tlv_len_lem (security_parameter_encode_try s),
      length-enc_hdr 0x30 (security_parameter_encode_try s) (enc_str snmpv3_engine_id boots) small,
      length-enc_str snmpv3_engine_id boots (omega arith),
      length-enc_int s.engine_boots time (omega arith),
      length-enc_int s.engine_time user (omega arith),
      length-enc_str s.user_name auth (omega arith),
      length-enc_str s.auth_para priv (omega arith),
      length-enc_str s.priv_para bs (omega arith),
    )

length-global :
    (g : GlobalData) (bs : List ℕ)
    → length g.msg_flags < 100
    → length (global_data_encode (global_data_encode_try g) g bs)
        + g.msg_id.len
        + g.msg_max_size.len
        + g.msg_security_model.len
      < u32_mod
    → length (global_data_encode (global_data_encode_try g) g bs)
        + g.msg_id.len
        + g.msg_max_size.len
        + g.msg_security_model.len
      ≡ tlv_len (global_data_encode_try g)
        + real g.msg_id
        + real g.msg_max_size
        + real g.msg_security_model
        + length bs
unfolding global_data_encode global_data_encode_try
length-global g bs hf h =
    let model = enc_int g.msg_security_model bs in
    let flags = enc_str (no_flags g.msg_flags) model in
    let size = enc_int g.msg_max_size flags in
    let small : IsU32 (global_data_encode_try g) = omega arith in
    let same = length-no_flags g.msg_flags in
    let tlv_same : tlv_len (length (no_flags g.msg_flags)) ≡ tlv_len (length g.msg_flags) =
      ap tlv_len same in
    omega (
      arith,
      tlv_len_lem (global_data_encode_try g),
      tlv_same,
      length-enc_hdr 0x30 (global_data_encode_try g) (enc_int g.msg_id size) small,
      length-enc_int g.msg_id size (omega arith),
      length-enc_int g.msg_max_size flags (omega arith),
      length-enc_str (no_flags g.msg_flags) model (omega (arith, same)),
      length-enc_int g.msg_security_model bs (omega arith),
    )

-- The header of version 3, with the context in `scope`.
pub length-v3_encode :
    (v3 : Option V3) (inner : ℕ) (bs : List ℕ)
    → ShortStrings v3
    → IsU32 (scope_len v3 inner)
    → length (v3_encode v3 (scope_len v3 inner) bs) + v3_lens v3 + inner < u32_mod
    → length (v3_encode v3 (scope_len v3 inner) bs) + v3_lens v3 + inner
      ≡ v3_len v3 (scope_len v3 inner) + scope_len v3 inner + v3_reals v3 + length bs
unfolding v3_encode v3_len scope_len
length-v3_encode none inner bs h u lt = omega arith
length-v3_encode (some v) inner bs (hf, hu, ha, hp) u lt =
    let context = enc_str snmpv3_engine_id bs in
    let scope = scope_len (some v) inner in
    let pdu = enc_hdr 0x30 scope context in
    let para =
      security_parameter_encode (security_parameter_encode_try v.security) v.security pdu in
    let sec = enc_hdr 0x04 (secur_str_len v) para in
    let str_len : secur_str_len v ≡ tlv_len (security_parameter_encode_try v.security) % u32_mod =
      unfold secur_str_len in refl in
    let g = length-global v.global_data sec hf (omega arith) in
    let c = length-enc_hdr 0x04 (secur_str_len v) para (omega (arith, str_len)) in
    let p = length-security v.security pdu hu ha hp (omega (arith, g, c)) in
    omega (
      arith,
      str_len,
      g,
      c,
      p,
      tlv_len_lem (global_data_encode_try v.global_data),
      tlv_len_lem (secur_str_len v),
      length-enc_hdr 0x30 scope context u,
      length-enc_str snmpv3_engine_id bs (omega arith),
    )
