-- ===== src/Tests/Answers.antt =====
-- A whole answer to GET, core/snmp_msg_proc.c, at the agent of `Proc`.
use mathlib.Core.List.{map}
use smartsnmp.Base.{ℕ, zero, suc, ◌≡◌, ◌<◌, refl, [], ◌∷◌, some, arith, length}
use smartsnmp.Oid.{oid_cover, oid_cmp}
use smartsnmp.View.{mib_community_search, same_name, views_of}
use smartsnmp.Base.Bytes.{high_bit}
use smartsnmp.Base.Int.{pattern32, pos}
use smartsnmp.Ber.Integer.{ber_int_enc_try, ber_int_enc}
use smartsnmp.Ber.Length.{ber_length_enc_try}
use smartsnmp.Ber.ObjectId.{sub_id_groups, enc_sub_id, ber_oid_enc, ber_oid_enc_try, try_sub_ids}
use smartsnmp.Ber.Value.{
  ber_value_enc_try, enc_try_kind, ber_value_dec, ber_value_enc, enc_kind, kind_of, dec_kind,
  fits_union, word,
}
use smartsnmp.Mib.Node.{slot_of}
use smartsnmp.Mib.Search.{
  mib_tree_search, mib_instance_search, of_reply, search_down, mib_tag_valid,
}
use smartsnmp.Mib.Stored.{to_int, stored}
use smartsnmp.Oid.BinarySearch.{oid_binary_search}
use smartsnmp.Snmp.MsgIn.{snmpd_recv}
use smartsnmp.Snmp.MsgOut.{tlv_len, VbOut, Sent}
use smartsnmp.Snmp.MsgProc.{
  mib_get, search_views, rounds, principal, c_str, next_of, gotcha, refuse,
}
use smartsnmp.Snmp.MsgProc.Answers.{served_get, loop-first_error, round_get, respond-snmpd_recv}
use smartsnmp.Snmp.MsgProc.Errors.{statuses, first_error, IsInt, Reports}
use smartsnmp.Snmp.MsgProc.Respond.{
  get_value, enc_within, snmp_get, read_value, of_decoded, add_vb_out, no_elements, Answer,
  reply_loop, get_round, reply_start, with_errors,
}
use smartsnmp.Snmp.MsgProc.Sizes.{bind-some, some-inj}
use smartsnmp.Snmp.Packet.{is_v3, VarBind}
use smartsnmp.Snmp.Parser.{ok}
use smartsnmp.Snmp.RoundTrip.Fields.{IsExact}
use smartsnmp.Snmp.RoundTrip.Response.{IsAnswered, answered}
use smartsnmp.Snmp.RoundTrip.VarBinds.{IsReply, list_len}
use smartsnmp.Tests.Proc.{agent, field, binding, request}
use smartsnmp.View.Access.{mib_community_next_view, next_view, view_after}

abbrev out : VbOut
out = record { oid = 1 ∷ 4 ∷ 0 ∷ []; vb_len = 7; value_type = 2; value = 7 ∷ [] }

abbrev replied : Answer
replied = record {
  ret = record { id = 1 ∷ 4 ∷ 0 ∷ []; err_stat = pos 0; var = record { tag = 2; value = word 7 } };
  vb_in_cnt = 1;
  err_stat = 0;
  err_idx = 0;
  vb_list_len = 9;
  vb_out_list = out ∷ [];
}

loop_run :
    reply_loop (get_round agent request) (binding 4 0 ∷ []) (reply_start request) ≡ some replied
unfolding reply_loop get_round reply_start read_value of_decoded ber_value_dec mib_get search_views
    rounds principal is_v3 mib_community_search same_name c_str views_of next_of
    mib_community_next_view mib_tree_search oid_cover oid_cmp high_bit ber_int_enc ber_int_enc_try
    ber_length_enc_try ber_oid_enc_try try_sub_ids ber_value_enc ber_value_enc_try enc_try_kind
    get_value enc_within enc_kind kind_of dec_kind slot_of mib_instance_search to_int pattern32
    stored of_reply search_down oid_binary_search tlv_len add_vb_out fits_union no_elements gotcha
    refuse mib_tag_valid next_view view_after sub_id_groups
loop_run = refl

statuses_run :
    statuses (get_round agent request) (binding 4 0 ∷ []) (reply_start request)
    ≡ pos 0 ∷ statuses (get_round agent request) [] replied
unfolding statuses reply_loop
statuses_run =
    let (r, e, f) =
      bind-some (get_round agent request (binding 4 0) (reply_start request))
        (reply_loop (get_round agent request) []) replied loop_run in
    let q : r ≡ replied = some-inj r replied f in rw (statuses, e, q) refl

no_error : IsInt (pos 0)
no_error h = cc

loop-first_error_example :
    Reports
      (first_error (statuses (get_round agent request) (binding 4 0 ∷ []) (reply_start request)))
      (reply_start request)
      replied
loop-first_error_example =
    loop-first_error agent request (get_round agent request) round_get replied loop_run refl
      (omega arith) (rw statuses_run (no_error, unfold statuses in tt))

exact : (v : ℕ) → v < 2 → IsExact (field v)
unfolding ber_int_enc high_bit
exact zero h = record { word = omega arith; exact = refl }
exact (suc zero) h = record { word = omega arith; exact = refl }
exact (suc (suc v)) h = absurd (omega arith)

out-IsReply : IsReply out
unfolding tlv_len ber_oid_enc enc_sub_id sub_id_groups ber_length_enc_try
out-IsReply = record {
  a = 1;
  b = 4;
  ids = 0 ∷ [];
  shape = refl;
  second = omega arith;
  first = omega arith;
  words = (omega arith, tt);
  short = omega arith;
  bytes = omega arith;
  small = omega arith;
  total = refl;
}

answer-IsAnswered : IsAnswered (with_errors replied request)
unfolding with_errors is_v3
answer-IsAnswered = record {
  version = exact 1 (omega arith);
  fits = refl;
  name = omega arith;
  pdu = record {
    req_id = exact 1 (omega arith);
    err_stat = exact 0 (omega arith);
    err_idx = exact 0 (omega arith);
  };
}

out_run : list_len (out ∷ []) ≡ 9
unfolding list_len tlv_len ber_length_enc_try
out_run = refl

respond-snmpd_recv_example :
    (sent : Sent) × (snmp_get agent request ≡ some sent)
    × (length sent.bytes ≡ sent.size)
    × (snmpd_recv sent.bytes ≡ ok (answered (with_errors replied request) (out ∷ [])) [])
    × (map (λ (vb : VbOut). vb.oid) (out ∷ []) ≡ map (λ (vb : VarBind). vb.oid) (binding 4 0 ∷ []))
respond-snmpd_recv_example =
    respond-snmpd_recv agent request (get_round agent request) (snmp_get agent request) served_get
      replied loop_run (out-IsReply, tt) answer-IsAnswered (omega (arith, out_run))
