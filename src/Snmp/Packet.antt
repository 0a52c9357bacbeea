-- ===== src/Snmp/Packet.antt =====
-- The datagram of core/snmp.h. The lengths of the enclosing sequences (`data_len`, `msg_len`,
-- `secur_str_len`, `secur_para_len`, `scope_len`, `pdu_len`) are left out: the decoder reads them and uses
-- none, and the builder computes them anew.
use smartsnmp.Base.{ℕ, List, Option, Bool, ◌&&◌, ltb, leb}

-- `enum snmp_err_code`
pub data ErrCode : Type 0 where
  err_version : ErrCode
  err_global_data_len err_global_id err_global_size err_global_flags err_global_model : ErrCode
  err_security_str err_security_seq err_security_engine_id err_security_engine_id_len : ErrCode
  err_security_engine_boots err_security_engine_time err_security_user_name : ErrCode
  err_security_user_name_len err_security_auth_para err_security_auth_para_len : ErrCode
  err_security_priv_para err_security_priv_para_len : ErrCode
  err_scope_pdu_seq err_context_id err_context_id_len err_context_name err_context_name_len :
      ErrCode
  err_pdu_type err_pdu_len err_pdu_reqid err_pdu_errstat err_pdu_erridx : ErrCode
  err_vb_list_seq err_vb_seq err_vb_oid_type err_vb_var err_vb_value_len err_vb_oid_len : ErrCode

-- An integer as a 32-bit pattern, and the number of bytes that it had in the message.
pub record Field : Type 0 where
  pub len : ℕ
  pub val : ℕ

-- The global data. `msg_flags` are the `msg_flags_len` bytes at the member, in the model as in the message.
pub record GlobalData : Type 0 where
  pub msg_id : Field
  pub msg_max_size : Field
  pub msg_flags : List ℕ
  pub msg_security_model : Field

-- The security parameters; a string and its length are one list.
pub record Security : Type 0 where
  pub engine_id : List ℕ
  pub engine_boots : Field
  pub engine_time : Field
  pub user_name : List ℕ
  pub auth_para : List ℕ
  pub priv_para : List ℕ

-- What only a message of version 3 has.
pub record V3 : Type 0 where
  pub global_data : GlobalData
  pub security : Security
  pub context_id : List ℕ

pub record PduHdr : Type 0 where
  pub pdu_type : ℕ
  pub req_id : Field
  pub err_stat : Field
  pub err_idx : Field

-- A variable binding of a request: the value is still encoded.
pub record VarBind : Type 0 where
  pub oid : List ℕ
  pub value_type : ℕ
  pub value : List ℕ

pub record Datagram : Type 0 where
  pub version : Field
  pub v3 : Option V3
  pub context_name : List ℕ
  pub pdu_hdr : PduHdr
  pub vb_in_list : List VarBind

-- `sdg->version >= 3` on an `int`.
unfoldable pub is_v3 : ℕ → Bool
is_v3 version = leb 3 version && ltb version 0x8000_0000
