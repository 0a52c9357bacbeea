-- ===== src/Snmp/MsgIn.antt =====
-- The decoder of datagrams, core/snmp_msg_in.c. A decoding error is logged, the datagram cleared and
-- nothing sent; the text of the log is not modelled.
pub mod Bindings
pub mod Headers
pub mod Accepted
use smartsnmp.Base.{ℕ, zero, suc, ◌+◌, ◌-◌, ◌%◌, List, [], ◌∷◌, Option, none, some, true, false}
use smartsnmp.Base.{leb, ◌==◌, if◌then◌else◌, length}
use smartsnmp.Base.Int.{sub32}
use smartsnmp.Base.Bytes.{u32_mod}
use smartsnmp.Ber.Length.{ber_length_dec}
use smartsnmp.Ber.Value.{
  oid, Decoded, nothing, decoded, undefined, ber_value_dec, ber_value_dec_try,
}
use smartsnmp.Snmp.Packet.{
  ErrCode, Field, GlobalData, Security, V3, PduHdr, VarBind, Datagram, is_v3,
}
use smartsnmp.Snmp.Packet.{
  err_version, err_global_data_len, err_global_id, err_global_size, err_global_flags,
  err_global_model, err_security_str, err_security_seq, err_security_engine_id,
  err_security_engine_id_len, err_security_engine_boots, err_security_engine_time,
  err_security_user_name, err_security_user_name_len, err_security_auth_para,
  err_security_auth_para_len, err_security_priv_para, err_security_priv_para_len, err_scope_pdu_seq,
  err_context_id, err_context_id_len, err_context_name, err_context_name_len, err_pdu_type,
  err_pdu_len, err_pdu_reqid, err_pdu_errstat, err_pdu_erridx, err_vb_list_seq, err_vb_seq,
  err_vb_oid_type, err_vb_var, err_vb_value_len, err_vb_oid_len,
}
use smartsnmp.Snmp.Parser.{
  Parsed, ok, err, fault, out_of_fuel, Parser, pure, fail, crash, peek, bind, ◌>>=◌, ◌>>◌, check,
  read_byte, expect, dec_length_size, dec_length, take_bytes, skip, int_field, str_field,
}

-- `vb->oid` after `ber_value_dec`.
unfoldable pub oid_value : Decoded → List ℕ
oid_value (decoded (oid ids)) = ids
oid_value d = []

unfoldable pub var_bind_alloc : Parser VarBind
var_bind_alloc = do
  expect 0x06 err_vb_oid_type
  oid_len ← dec_length
  oid_bytes ← take_bytes oid_len
  check (leb (ber_value_dec_try 0x06 oid_bytes) 64) err_vb_oid_len
  val_type ← read_byte
  val_len ← dec_length
  check (leb val_len 1024) err_vb_value_len
  value ← take_bytes val_len
  pure record {
    oid = oid_value (ber_value_dec 0x06 oid_bytes);
    value_type = val_type;
    value = value;
  }

unfoldable pub pdu_hdr_parse : Parser PduHdr
pdu_hdr_parse = do
  pdu_type ← read_byte
  pdu_len ← dec_length
  req_id ← int_field err_pdu_reqid
  err_stat ← int_field err_pdu_errstat
  err_idx ← int_field err_pdu_erridx
  pure record { pdu_type = pdu_type; req_id = req_id; err_stat = err_stat; err_idx = err_idx }

-- The body of the loop of `var_bind_parse`: a variable binding, and what it takes from the list.
unfoldable pub var_bind_round : Parser (VarBind × ℕ)
var_bind_round = do
  expect 0x30 err_vb_seq
  (vb_len, len_len) ← dec_length_size
  vb ← peek var_bind_alloc
  skip vb_len
  pure (vb, (1 + len_len + vb_len) % u32_mod)

-- The loop on fuel; `len` is `sdg->vb_list_len`, a `uint32_t` that may wrap.
unfoldable pub var_binds : ℕ → ℕ → Parser (List VarBind)
var_binds zero len = λ bs. out_of_fuel
var_binds (suc fuel) len = elim (len == 0) [
  | true ↦ pure []
  | false ↦ do (vb, used) ← var_bind_round; vbs ← var_binds fuel (sub32 len used); pure (vb ∷ vbs)
]

-- Each round takes at least a tag and a length, so the bytes left are fuel enough (child
-- module `Bindings`).
unfoldable pub var_bind_parse : Parser (List VarBind)
var_bind_parse = do
  expect 0x30 err_vb_list_seq
  len ← dec_length
  λ bs. var_binds (length bs + 1) len bs

-- `msg_flags` is one byte, and its length is not checked. Three more bytes go into the padding behind it; from
-- the fifth on they are written over `msg_flags_len`, by which the pointer then moves, and over the members
-- behind that.
unfoldable pub flags_field : Parser (List ℕ)
flags_field = do
  expect 0x04 err_global_flags
  n ← dec_length
  flags ← take_bytes n
  if leb n 4 then pure flags else crash

unfoldable pub global_data_decode : Parser GlobalData
global_data_decode = do
  msg_id ← int_field err_global_id
  msg_max_size ← int_field err_global_size
  msg_flags ← flags_field
  msg_security_model ← int_field err_global_model
  pure record {
    msg_id = msg_id;
    msg_max_size = msg_max_size;
    msg_flags = msg_flags;
    msg_security_model = msg_security_model;
  }

-- A wrong tag of the last string gives the code of the engine time.
unfoldable pub security_parameter_decode : Parser Security
security_parameter_decode = do
  expect 0x04 err_security_str
  secur_str_len ← dec_length
  expect 0x30 err_security_seq
  secur_para_len ← dec_length
  engine_id ← str_field err_security_engine_id err_security_engine_id_len 33
  engine_boots ← int_field err_security_engine_boots
  engine_time ← int_field err_security_engine_time
  user_name ← str_field err_security_user_name err_security_user_name_len 41
  auth_para ← str_field err_security_auth_para err_security_auth_para_len 41
  priv_para ← str_field err_security_engine_time err_security_priv_para_len 41
  pure record {
    engine_id = engine_id;
    engine_boots = engine_boots;
    engine_time = engine_time;
    user_name = user_name;
    auth_para = auth_para;
    priv_para = priv_para;
  }

unfoldable pub v3_decode : Parser V3
v3_decode = do
  expect 0x30 err_global_data_len
  msg_len ← dec_length
  global_data ← global_data_decode
  security ← security_parameter_decode
  expect 0x30 err_scope_pdu_seq
  scope_len ← dec_length
  context_id ← str_field err_context_id err_context_id_len 33
  pure record { global_data = global_data; security = security; context_id = context_id }

-- The fields of version 3 stay cleared in a message of an older version.
unfoldable pub v3_part : ℕ → Parser (Option V3)
v3_part version = if is_v3 version then (do v3 ← v3_decode; pure (some v3)) else pure none

unfoldable pub snmp_decode : Parser Datagram
snmp_decode = do
  tag ← read_byte
  data_len ← dec_length
  version ← int_field err_version
  v3 ← v3_part version.val
  context_name ← str_field err_context_name err_context_name_len 41
  pdu_hdr ← pdu_hdr_parse
  vb_in_list ← var_bind_parse
  pure record {
    version = version;
    v3 = v3;
    context_name = context_name;
    pdu_hdr = pdu_hdr;
    vb_in_list = vb_in_list;
  }

-- The two checks of `snmpd_recv`, and the decoder; the dispatch follows on `ok`.
unfoldable pub snmpd_recv : Parser Datagram
snmpd_recv buffer =
    bind
      ((do
        expect 0x30 err_pdu_type
        (data_len, len_len) ← dec_length_size
        check ((1 + len_len + data_len) % u32_mod == length buffer) err_pdu_len)
        buffer)
      λ _ _. snmp_decode buffer
