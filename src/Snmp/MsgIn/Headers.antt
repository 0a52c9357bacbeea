-- ===== src/Snmp/MsgIn/Headers.antt =====
-- The headers of version 3 that core/snmp_msg_in.c decodes from any bytes.
use smartsnmp.Snmp.MsgIn.{err_security_priv_para_len}
use smartsnmp.Snmp.MsgIn.{err_security_auth_para_len}
use smartsnmp.Snmp.MsgIn.{err_security_auth_para}
use smartsnmp.Snmp.MsgIn.{err_security_user_name_len}
use smartsnmp.Snmp.MsgIn.{err_security_user_name}
use smartsnmp.Snmp.MsgIn.{err_security_engine_time}
use smartsnmp.Snmp.MsgIn.{err_security_engine_boots}
use smartsnmp.Snmp.MsgIn.{err_security_engine_id_len}
use smartsnmp.Snmp.MsgIn.{err_security_engine_id}
use smartsnmp.Snmp.MsgIn.{err_global_model}
use smartsnmp.Snmp.MsgIn.{err_security_seq}
use smartsnmp.Snmp.MsgIn.{err_global_size}
use smartsnmp.Snmp.MsgIn.{err_security_str}
use smartsnmp.Snmp.MsgIn.{err_global_id}
use smartsnmp.Snmp.MsgIn.{err_global_flags}
use smartsnmp.Base.{inr}
use smartsnmp.Base.{inl}
use smartsnmp.Base.{Bool-cases}
use smartsnmp.Base.{ℕ, ◌≡◌, ◌≤◌, ◌<◌, List, length, arith, true, false, leb, Option, none, some}
use smartsnmp.Snmp.Packet.{Security, V3, is_v3}
use smartsnmp.Snmp.Packet.{
  err_security_engine_time, err_context_id, err_context_id_len, err_scope_pdu_seq,
  err_global_data_len,
}
use smartsnmp.Snmp.Parser.Sound.{
  Sound, done, faulted, bind-Sound, expect-Sound, dec_length-Sound, take_bytes-Sound,
  int_field-Sound, str_field-Sound,
}
use smartsnmp.Snmp.MsgIn.{
  flags_field, global_data_decode, security_parameter_decode, v3_decode, v3_part,
}

-- The strings of a message of version 3 fit their arrays, with a terminator.
pub record SecurityBounds (s : Security) : Type 0 where
  pub engine_id : length s.engine_id < 33
  pub user_name : length s.user_name < 41
  pub auth_para : length s.auth_para < 41
  pub priv_para : length s.priv_para < 41

pub record V3Bounds (v : V3) : Type 0 where
  pub security : SecurityBounds v.security
  pub context_id : length v.context_id < 33

flags_field-Sound :
    (bs : List ℕ) (n : ℕ) → length bs ≤ n → Sound n (λ flags. Unit {0}) (flags_field bs)
unfolding flags_field
flags_field-Sound bs n h =
    bind-Sound (expect-Sound 0x04 err_global_flags bs n (omega arith)) λ _ bs1 l1 p1.
      bind-Sound (dec_length-Sound bs1 n l1) λ k bs2 l2 p2.
        bind-Sound (take_bytes-Sound k bs2 n l2) λ flags bs3 l3 p3. elim (Bool-cases (leb k 4)) [
          | inl e ↦ rw e (done flags bs3 l3 tt)
          | inr e ↦ rw e faulted
        ]

global_data_decode-Sound :
    (bs : List ℕ) (n : ℕ) → length bs ≤ n → Sound n (λ g. Unit {0}) (global_data_decode bs)
unfolding global_data_decode
global_data_decode-Sound bs n h =
    bind-Sound (int_field-Sound err_global_id bs n h) λ msg_id bs1 l1 p1.
      bind-Sound (int_field-Sound err_global_size bs1 n l1) λ size bs2 l2 p2.
        bind-Sound (flags_field-Sound bs2 n l2) λ flags bs3 l3 p3.
          bind-Sound (int_field-Sound err_global_model bs3 n l3) λ model bs4 l4 p4.
            done
              (record {
                msg_id = msg_id;
                msg_max_size = size;
                msg_flags = flags;
                msg_security_model = model;
              })
              bs4 l4 p3

security_parameter_decode-Sound :
    (bs : List ℕ) (n : ℕ)
    → length bs ≤ n
    → n < 0x8000_0000
    → Sound n SecurityBounds (security_parameter_decode bs)
unfolding security_parameter_decode
security_parameter_decode-Sound bs n h lt =
    bind-Sound (expect-Sound 0x04 err_security_str bs n (omega arith)) λ _ bs1 l1 p1.
      bind-Sound (dec_length-Sound bs1 n l1) λ str_len bs2 l2 p2.
        bind-Sound (expect-Sound 0x30 err_security_seq bs2 n (omega arith)) λ _ bs3 l3 p3.
          bind-Sound (dec_length-Sound bs3 n l3) λ para_len bs4 l4 p4.
            bind-Sound
              (str_field-Sound err_security_engine_id err_security_engine_id_len 33 bs4 n l4 lt)
              λ engine_id bs5 l5 p5.
                bind-Sound (int_field-Sound err_security_engine_boots bs5 n l5) λ boots bs6 l6 p6.
                  bind-Sound (int_field-Sound err_security_engine_time bs6 n l6) λ time bs7 l7 p7.
                    bind-Sound
                      (str_field-Sound err_security_user_name err_security_user_name_len 41 bs7 n l7
                        lt)
                      λ user bs8 l8 p8.
                        bind-Sound
                          (str_field-Sound err_security_auth_para err_security_auth_para_len 41 bs8
                            n l8 lt)
                          λ auth bs9 l9 p9.
                            bind-Sound
                              (str_field-Sound err_security_engine_time err_security_priv_para_len
                                41 bs9 n l9 lt)
                              λ priv bs10 l10 p10.
                                done
                                  (record {
                                    engine_id = engine_id;
                                    engine_boots = boots;
                                    engine_time = time;
                                    user_name = user;
                                    auth_para = auth;
                                    priv_para = priv;
                                  })
                                  bs10 l10
                                  record {
                                    engine_id = p5;
                                    user_name = p8;
                                    auth_para = p9;
                                    priv_para = p10;
                                  }

v3_decode-Sound :
    (bs : List ℕ) (n : ℕ) → length bs ≤ n → n < 0x8000_0000 → Sound n V3Bounds (v3_decode bs)
unfolding v3_decode
v3_decode-Sound bs n h lt =
    bind-Sound (expect-Sound 0x30 err_global_data_len bs n (omega arith)) λ _ bs1 l1 p1.
      bind-Sound (dec_length-Sound bs1 n l1) λ msg_len bs2 l2 p2.
        bind-Sound (global_data_decode-Sound bs2 n l2) λ g bs3 l3 p3.
          bind-Sound (security_parameter_decode-Sound bs3 n l3 lt) λ s bs4 l4 p4.
            bind-Sound (expect-Sound 0x30 err_scope_pdu_seq bs4 n (omega arith)) λ _ bs5 l5 p5.
              bind-Sound (dec_length-Sound bs5 n l5) λ scope bs6 l6 p6.
                bind-Sound (str_field-Sound err_context_id err_context_id_len 33 bs6 n l6 lt)
                  λ context_id bs7 l7 p7.
                    done (record { global_data = g; security = s; context_id = context_id }) bs7 l7
                      record { security = p4; context_id = p7 }

-- The fields of version 3 are there exactly for version 3, within their bounds.
abbrev pub V3Accepted : ℕ → Option V3 → Type 0
V3Accepted version none = is_v3 version ≡ false
V3Accepted version (some v) = (is_v3 version ≡ true) × V3Bounds v

pub v3_part-Sound :
    (version : ℕ) (bs : List ℕ) (n : ℕ)
    → length bs ≤ n
    → n < 0x8000_0000
    → Sound n (V3Accepted version) (v3_part version bs)
unfolding v3_part
v3_part-Sound version bs n h lt = elim (Bool-cases (is_v3 version)) [
  | inl e ↦
      rw e (bind-Sound (v3_decode-Sound bs n h lt) λ v bs1 l1 p1. done (some v) bs1 l1 (e, p1))
  | inr e ↦ rw e (done none bs h e)
]
