-- ===== src/Tests/Onward.antt =====
-- GETNEXT and BULKGET over the views of core/snmp_msg_proc.c at a concrete agent.
use smartsnmp.Mib.Stored.{to_int, stored}
use smartsnmp.Base.Int.{pattern32}
use smartsnmp.Ber.Integer.{ber_int_enc_try}
use smartsnmp.Ber.Value.{ber_value_enc_try, enc_try_kind}
use smartsnmp.Snmp.MsgProc.Respond.{get_value, enc_within}
use smartsnmp.Base.{◌*◌, length, ◌<◌, arith, ℕ, ◌≡◌, refl, some, [], ◌∷◌}
use smartsnmp.Oid.{oid_cmp, oid_cover}
use smartsnmp.View.{aces_read, views_of, same_name, mib_community_search}
use smartsnmp.Base.Bytes.{high_bit}
use smartsnmp.Base.Int.{pos}
use smartsnmp.Ber.Integer.{ber_int_enc}
use smartsnmp.Ber.Length.{ber_length_enc_try}
use smartsnmp.Ber.ObjectId.{ber_oid_enc_try, try_sub_ids, sub_id_groups}
use smartsnmp.Ber.Value.{
  ber_value_enc, ber_value_dec, enc_kind, kind_of, dec_kind, fits_union, word,
}
use smartsnmp.Mib.Delete.{nbl_push}
use smartsnmp.Mib.Delete.Walk.{rounds}
use smartsnmp.Mib.Node.{slot_of, sub_ids, sub_ptr, sub_id_cnt}
use smartsnmp.Mib.Search.{
  mib_tag_valid, mib_instance_search, of_reply, search_down, mib_tree_search,
}
use smartsnmp.Mib.SearchNext.{
  settle, end_of_view, next_loop, next_from, next_at, mode_in, start_mode, mib_tree_search_next,
  ask, judge, proceed, entry_of, sub_id_at, inst_id_of, node_of, idx_of, shorter,
}
use smartsnmp.Oid.BinarySearch.{oid_binary_search}
use smartsnmp.Oid.Compare.{IsSmall, IsOid}
use smartsnmp.Snmp.MsgOut.{tlv_len}
use smartsnmp.Snmp.MsgProc.{Agent, RetOid, c_str, principal, next_of, refuse}
use smartsnmp.Snmp.MsgProc.Access.{granted}
use smartsnmp.Snmp.MsgProc.GetNext.{
  getnext_round, bulk_pass, bulk_loop, bulk_start, asked_next, next_views, mib_getnext,
}
use smartsnmp.Snmp.MsgProc.GetNext.Steps.{snmp_bulkget-length}
use smartsnmp.Snmp.MsgProc.Onward.{Onwards, mib_getnext-Onwards}
use smartsnmp.Snmp.MsgProc.Respond.{
  read_value, of_decoded, Answer, reply_start, add_vb_out, no_elements,
}
use smartsnmp.Snmp.Packet.{Datagram, is_v3}
use smartsnmp.Tests.Next.{nexts-Advances, height-tree, tree-IsTree, tree, nexts}
use smartsnmp.Tests.Proc.{binding, view, field, public, request, null_ret}
use smartsnmp.View.Access.{next_view, view_after, mib_community_next_view}

abbrev agent : Agent
agent = record {
  lua_pcall = nexts;
  tree = tree;
  store = record { mib_views = []; mib_communities = public ∷ []; mib_users = [] };
}

abbrev found : RetOid
found = record { id = 1 ∷ 5 ∷ 0 ∷ []; err_stat = pos 0; var = record { tag = 2; value = word 7 } }

-- The view at 1.4 ends, and the one at 1.5 is ahead.
getnext_run : mib_getnext agent request (1 ∷ 4 ∷ 0 ∷ []) null_ret ≡ some found
unfolding mib_getnext next_views mib_tree_search_next next_at next_from next_loop mode_in start_mode
    mib_tree_search search_down oid_cover oid_cmp slot_of oid_binary_search mib_instance_search
    to_int pattern32 stored of_reply rounds ask judge proceed entry_of sub_id_at inst_id_of node_of
    idx_of shorter nbl_push sub_ptr sub_id_cnt settle sub_ids end_of_view principal is_v3
    mib_community_search same_name c_str views_of next_of mib_community_next_view next_view
    view_after refuse smartsnmp.Snmp.MsgProc.rounds
getnext_run = refl

-- One repetition for one binding.
abbrev bulk : Datagram
bulk = record request {
  pdu_hdr = record { pdu_type = 0xa2; req_id = field 1; err_stat = field 0; err_idx = field 1 };
}

abbrev replied : Answer
replied = record {
  ret = found;
  vb_in_cnt = 1;
  err_stat = 0;
  err_idx = 0;
  vb_list_len = 9;
  vb_out_list = record { oid = 1 ∷ 5 ∷ 0 ∷ []; vb_len = 7; value_type = 2; value = 7 ∷ [] } ∷ [];
}

bulk_run :
    bulk_loop 1 (getnext_round agent bulk) (binding 4 0 ∷ []) (bulk_start bulk) ≡ some replied
unfolding bulk_loop bulk_pass asked_next getnext_round bulk_start reply_start read_value of_decoded
    ber_value_dec mib_getnext next_views mib_tree_search_next next_at next_from next_loop mode_in
    start_mode mib_tree_search search_down oid_cover oid_cmp slot_of oid_binary_search
    mib_instance_search to_int pattern32 stored of_reply rounds ask judge proceed entry_of sub_id_at
    inst_id_of node_of idx_of shorter nbl_push sub_ptr sub_id_cnt settle sub_ids end_of_view
    principal is_v3 mib_community_search same_name c_str views_of next_of mib_community_next_view
    next_view view_after refuse smartsnmp.Snmp.MsgProc.rounds high_bit ber_int_enc ber_int_enc_try
    ber_length_enc_try ber_oid_enc_try try_sub_ids sub_id_groups ber_value_enc ber_value_enc_try
    enc_try_kind get_value enc_within enc_kind kind_of dec_kind tlv_len add_vb_out fits_union
    no_elements mib_tag_valid
bulk_run = refl

IsSmall-asked : IsSmall (1 ∷ 4 ∷ 0 ∷ [])
IsSmall-asked = record { words = omega arith; short = omega arith }

IsOid-found : IsOid (1 ∷ 5 ∷ 0 ∷ [])
IsOid-found = record { words = omega arith; short = omega arith }

IsSmall-view : (i : ℕ) → i < 100 → IsSmall (view i).oid
IsSmall-view i h = record { words = omega (arith, h); short = omega arith }

granted_run : granted aces_read (principal agent.store request) ≡ view 4 ∷ view 5 ∷ []
unfolding principal is_v3 c_str mib_community_search same_name views_of
granted_run = refl

mib_getnext-Onwards_example :
    Onwards (granted aces_read (principal agent.store request)) (1 ∷ 4 ∷ 0 ∷ []) found
mib_getnext-Onwards_example =
    mib_getnext-Onwards agent request (1 ∷ 4 ∷ 0 ∷ []) null_ret found IsSmall-asked tree-IsTree
      (omega (arith, height-tree)) nexts-Advances
      (rw granted_run (IsSmall-view 4 (omega arith), (IsSmall-view 5 (omega arith), tt)))
      IsOid-found getnext_run

snmp_bulkget-length_example : length replied.vb_out_list ≡ 1 * 1
snmp_bulkget-length_example = snmp_bulkget-length agent bulk replied bulk_run
