-- ===== src/Snmp/MsgProc/GetNext.antt =====
-- GETNEXT and BULKGET of core/snmp_msg_proc.c: the loop over the views, and the loops over the bindings.
pub mod Steps
use smartsnmp.Base.{ℕ, zero, suc, ◌+◌, ◌%◌, List, [], ◌∷◌, Option, none, some, if◌then◌else◌, ◌==◌}
use smartsnmp.Base.Bytes.{u32_mod}
use smartsnmp.Mib.SearchNext.{out_of_fuel, failed, next, mib_tree_search_next}
use smartsnmp.View.{View, aces_read}
use smartsnmp.Snmp.Packet.{VarBind, Datagram}
use smartsnmp.Snmp.MsgOut.{Sent, snmp_response}
use smartsnmp.Snmp.MsgProc.{Agent, RetOid, principal, next_of, rounds, refuse}
use smartsnmp.Snmp.MsgProc.Respond.{
  Answer, get_value, read_value, add_vb_out, reply_start, with_errors, respond,
}

module _ (agent : Agent) (oid : List ℕ) where
  -- The loop over the views, on fuel: the first that does not answer END_OF_MIB_VIEW.
  unfoldable pub next_views : ℕ → (Option View → Option View) → Option View → RetOid → Option RetOid
  unfolding mib_tree_search_next
  next_views zero next_view v ret = none
  next_views (suc fuel) next_view v ret = elim (next_view v) [
    | none ↦ some record { id = oid; err_stat = ret.err_stat; var = ret.var }
    | some w ↦ elim (mib_tree_search_next agent.lua_pcall ret.var w.oid oid agent.tree) [
      | out_of_fuel ↦ none
      | failed ↦ none
      | next r ↦
          let found : RetOid = record { id = r.oid; err_stat = r.err_stat; var = r.var } in
          let rest = next_views fuel next_view (some w) found in
          if r.var.tag == 0x82 then rest else some found
    ]
  ]

unfoldable pub mib_getnext : Agent → Datagram → List ℕ → RetOid → Option RetOid
unfolding next_views principal next_of rounds refuse
mib_getnext agent sdg oid ret =
    let c = principal agent.store sdg in
    next_views agent oid (rounds aces_read c) (next_of sdg c aces_read) none (refuse c ret)

-- One round of `snmp_getnext`.
unfoldable pub getnext_round : Agent → Datagram → VarBind → Answer → Option Answer
unfolding read_value mib_getnext add_vb_out
getnext_round agent sdg vb_in r = elim (read_value vb_in r.ret) [
  | none ↦ none
  | some ret0 ↦ elim (mib_getnext agent sdg vb_in.oid ret0) [
    | none ↦ none
    | some ret ↦ elim (get_value ret.var.tag ret.var.value) [
      | none ↦ none
      | some value ↦
          add_vb_out ret ret.var.tag value (record r { vb_in_cnt = (r.vb_in_cnt + 1) % u32_mod })
    ]
  ]
]

unfoldable pub snmp_getnext : Agent → Datagram → Option Sent
unfolding respond getnext_round
snmp_getnext agent sdg = respond (getnext_round agent sdg) sdg

-- The binding for the next query.
unfoldable pub asked_next : VarBind → Answer → VarBind
asked_next vb_in r = record vb_in { oid = r.ret.id }

-- One pass of `snmp_bulkget` over the bindings; a round is that of GETNEXT.
unfoldable pub bulk_pass :
    (VarBind → Answer → Option Answer) → List VarBind → Answer → Option (List VarBind × Answer)
unfolding asked_next
bulk_pass round [] r = some ([], r)
bulk_pass round (vb_in ∷ vbs) r = elim (round vb_in r) [
  | none ↦ none
  | some r' ↦ elim (bulk_pass round vbs r') [
    | none ↦ none
    | some (vbs', last) ↦ some (asked_next vb_in r' ∷ vbs', last)
  ]
]

-- `while (repeat-- > 0)`
unfoldable pub bulk_loop :
    ℕ → (VarBind → Answer → Option Answer) → List VarBind → Answer → Option Answer
unfolding bulk_pass
bulk_loop zero round vbs r = some r
bulk_loop (suc repeat) round vbs r = elim (bulk_pass round vbs r) [
  | none ↦ none
  | some (vbs', r') ↦ bulk_loop repeat round vbs' r'
]

-- The error index of the request is the number of repetitions, and is cleared.
unfoldable pub bulk_start : Datagram → Answer
unfolding reply_start
bulk_start sdg = record (reply_start sdg) { err_idx = 0 }

unfoldable pub snmp_bulkget : Agent → Datagram → Option Sent
unfolding bulk_loop getnext_round bulk_start with_errors
snmp_bulkget agent sdg =
    elim (bulk_loop sdg.pdu_hdr.err_idx.val (getnext_round agent sdg) sdg.vb_in_list
      (bulk_start sdg)) [
        | none ↦ none
        | some r ↦ snmp_response (with_errors r sdg) r.vb_list_len r.vb_out_list
      ]
