-- ===== src/Tests/Snmp.antt =====
-- A request and a response of version 1, and the theorems on them.
use smartsnmp.Base.{zero, suc, suc}
use smartsnmp.Base.{
  zero, suc, ℕ, ◌+◌, ◌≡◌, ◌≢◌, ◌<◌, refl, List, [], ◌∷◌, none, some, arith, length,
}
use smartsnmp.Ber.Integer.{ber_int_enc}
use smartsnmp.Ber.ObjectId.{ber_oid_enc, enc_sub_id, sub_id_groups}
use smartsnmp.Base.Bytes.{high_bit}
use smartsnmp.Ber.Length.{ber_length_enc, ber_length_enc_try}
use smartsnmp.Snmp.Packet.{Field, Datagram, is_v3}
use smartsnmp.Snmp.Parser.{ok, out_of_fuel}
use smartsnmp.Snmp.MsgIn.{snmpd_recv}
use smartsnmp.Snmp.MsgIn.Accepted.{DatagramFits, snmpd_recv_ends, snmpd_recv-DatagramFits}
use smartsnmp.Snmp.MsgOut.{
  enc_hdr, enc_int, enc_str, v3_encode, pdu_encode, pdu_len, pdu_scope_len, scope_len, v3_len,
  data_len, VbOut, Sent, tlv_len, asn1_encode, snmp_response,
}
use smartsnmp.Snmp.MsgOut.Total.{lens, reals, size, length-asn1_encode}
use smartsnmp.Snmp.RoundTrip.Fields.{IsExact}
use smartsnmp.Snmp.RoundTrip.VarBinds.{IsReply, list_len}
use smartsnmp.Snmp.RoundTrip.Response.{IsAnswered, answered, snmpd_recv-snmp_response}
use smartsnmp.Snmp.Parser.{
  expect, dec_length_size, read_byte, dec_length, int_field, take_bytes, int_value, str_field, peek,
  skip,
}
use smartsnmp.Base.Bytes.{high_bit}
use smartsnmp.Ber.Length.{ber_length_dec, shift_rounds}
use smartsnmp.Base.Bytes.{high_bit}
use smartsnmp.Ber.Value.{ber_value_dec, ber_value_dec_try, dec_kind, dec_try_kind, kind_of, of_word}
use smartsnmp.Ber.Integer.{ber_int_dec, ber_uint_dec, shift_all, sign_fill}
use smartsnmp.Ber.ObjectId.{ber_oid_dec, ber_oid_dec_try, count_sub_ids, dec_sub_ids}
use smartsnmp.Snmp.MsgIn.{
  snmp_decode, v3_part, pdu_hdr_parse, var_bind_parse, oid_value, var_bind_alloc, var_bind_round,
  var_binds,
}

-- A number that takes `n` bytes in the message.
abbrev field : ℕ → ℕ → Field
field n v = record { len = n; val = v }

-- The community "public", a response to the request 1, whose number came in `n` bytes.
abbrev reply : ℕ → Datagram
reply n = record {
  version = field 1 0;
  v3 = none;
  context_name = 0x70 ∷ 0x75 ∷ 0x62 ∷ 0x6c ∷ 0x69 ∷ 0x63 ∷ [];
  pdu_hdr = record {
    pdu_type = 0xa2;
    req_id = field n 1;
    err_stat = field 1 0;
    err_idx = field 1 0;
  };
  vb_in_list = [];
}

-- 1.3.6.1 has the integer 5.
abbrev binding : VbOut
binding = record { oid = 1 ∷ 3 ∷ 6 ∷ 1 ∷ []; vb_len = 8; value_type = 0x02; value = 5 ∷ [] }

abbrev request : List ℕ
request =
    0x30 ∷ 0x1b ∷ 0x02 ∷ 1 ∷ 0 ∷ 0x04 ∷ 1 ∷ 0x70 ∷ 0xa0 ∷ 0x13 ∷ 0x02 ∷ 1 ∷ 1 ∷ 0x02 ∷ 1 ∷ 0 ∷ 0x02
    ∷ 1 ∷ 0 ∷ 0x30 ∷ 0x08 ∷ 0x30 ∷ 6 ∷ 0x06 ∷ 2 ∷ 0x2b ∷ 6 ∷ 0x05 ∷ 0 ∷ []

abbrev requested : Datagram
requested = record {
  version = field 1 0;
  v3 = none;
  context_name = 0x70 ∷ [];
  pdu_hdr = record {
    pdu_type = 0xa0;
    req_id = field 1 1;
    err_stat = field 1 0;
    err_idx = field 1 0;
  };
  vb_in_list = record { oid = 1 ∷ 3 ∷ 6 ∷ []; value_type = 0x05; value = [] } ∷ [];
}

request_accepted : snmpd_recv request ≡ ok requested []
unfolding snmpd_recv expect dec_length_size read_byte dec_length int_field take_bytes int_value
    str_field peek skip ber_length_dec shift_rounds high_bit ber_value_dec ber_value_dec_try
    dec_kind dec_try_kind kind_of of_word ber_int_dec ber_uint_dec shift_all sign_fill ber_oid_dec
    ber_oid_dec_try count_sub_ids dec_sub_ids snmp_decode v3_part pdu_hdr_parse var_bind_parse
    oid_value var_bind_alloc var_bind_round var_binds is_v3
request_accepted = refl

snmpd_recv_ends_example : snmpd_recv request ≢ out_of_fuel
snmpd_recv_ends_example = snmpd_recv_ends request (omega arith)

snmpd_recv-DatagramFits_example : DatagramFits requested
snmpd_recv-DatagramFits_example =
    snmpd_recv-DatagramFits request [] requested (omega arith) request_accepted

binding-IsReply : IsReply binding
unfolding tlv_len ber_oid_enc enc_sub_id sub_id_groups ber_length_enc_try
binding-IsReply = record {
  a = 1;
  b = 3;
  ids = 6 ∷ 1 ∷ [];
  shape = refl;
  second = omega arith;
  first = omega arith;
  words = (omega arith, (omega arith, tt));
  short = omega arith;
  bytes = omega arith;
  small = omega arith;
  total = refl;
}

exact : (v : ℕ) → v < 2 → IsExact (field 1 v)
unfolding ber_int_enc high_bit
exact zero h = record { word = omega arith; exact = refl }
exact (suc zero) h = record { word = omega arith; exact = refl }
exact (suc (suc v)) h = absurd (omega arith)

reply-IsAnswered : IsAnswered (reply 1)
unfolding is_v3
reply-IsAnswered = record {
  version = exact 0 (omega arith);
  fits = refl;
  name = omega arith;
  pdu = record {
    req_id = exact 1 (omega arith);
    err_stat = exact 0 (omega arith);
    err_idx = exact 0 (omega arith);
  };
}

list_len_run : list_len (binding ∷ []) ≡ 10
unfolding list_len tlv_len ber_length_enc_try
list_len_run = refl

snmpd_recv-snmp_response_example :
    (sent : Sent) × (snmp_response (reply 1) (list_len (binding ∷ [])) (binding ∷ []) ≡ some sent)
    × (length sent.bytes ≡ sent.size)
    × (snmpd_recv sent.bytes ≡ ok (answered (reply 1) (binding ∷ [])) [])
snmpd_recv-snmp_response_example =
    snmpd_recv-snmp_response (reply 1) (binding ∷ []) reply-IsAnswered (binding-IsReply, tt)
      (omega (arith, list_len_run))

-- The number 1 of the request came in 4 bytes: the size sent is 3 bytes more than what is written.
length_run : length (asn1_encode (reply 4) 0 []) ≡ 26
unfolding asn1_encode enc_hdr enc_int enc_str v3_encode pdu_encode pdu_len pdu_scope_len scope_len
    v3_len data_len tlv_len ber_length_enc ber_length_enc_try ber_int_enc high_bit
length_run = refl

length-asn1_encode_example :
    length (asn1_encode (reply 4) 0 []) + lens (reply 4) ≡ size (reply 4) 0 + reals (reply 4)
length-asn1_encode_example =
    length-asn1_encode (reply 4) 0 [] (omega arith) refl (omega arith) tt
      (omega (arith, length_run))
