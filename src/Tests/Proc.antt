-- ===== src/Tests/Proc.antt =====
-- GET and SET of core/snmp_msg_proc.c at a concrete agent, and the theorems on them.
use smartsnmp.Mib.Stored.{to_int, stored}
use smartsnmp.Base.Int.{pattern32}
use smartsnmp.Snmp.MsgProc.Writing.{mib_set_loses_value}
use smartsnmp.Mib.Search.{req_val}
use smartsnmp.Oid.Cover.{Covers}
use smartsnmp.Snmp.MsgProc.{mib_get}
use smartsnmp.Snmp.MsgProc.{principal}
use smartsnmp.Snmp.Packet.{is_v3}
use smartsnmp.View.{mib_community_search}
use smartsnmp.View.{same_name}
use smartsnmp.Snmp.MsgProc.{c_str}
use smartsnmp.View.{views_of}
use smartsnmp.Mib.Search.{mib_tree_search}
use smartsnmp.Oid.{oid_cover}
use smartsnmp.Oid.{oid_cmp}
use smartsnmp.Mib.Node.{slot_of}
use smartsnmp.Mib.Search.{mib_instance_search}
use smartsnmp.Mib.Search.{of_reply}
use smartsnmp.Mib.Search.{search_down}
use smartsnmp.Oid.BinarySearch.{oid_binary_search}
use smartsnmp.Snmp.MsgProc.{refuse}
use smartsnmp.Snmp.MsgProc.{c_str}
use smartsnmp.Base.Int.{is_neg}
use smartsnmp.Base.{ℕ, suc, ◌≡◌, ◌<◌, refl, subst, inl, inr, [], ◌∷◌, none, some, arith, false}
use smartsnmp.Base.Int.{pos, is_neg}
use smartsnmp.Ber.Value.{word}
use smartsnmp.Oid.Compare.{IsOid}
use smartsnmp.Oid.{oid_cover, oid_cmp}
use smartsnmp.Oid.BinarySearch.{oid_binary_search}
use smartsnmp.Mib.Node.{group_node, instance_node, nil, cons, slot_of}
use smartsnmp.Mib.Search.{Lua, retag, mib_tree_search, search_down, mib_instance_search, of_reply}
use smartsnmp.View.{View, Community, views_of, aces_read, same_name, mib_community_search}
use smartsnmp.View.Covering.{AllOids, Grants}
use smartsnmp.View.Filter.{Pairwise}
use smartsnmp.View.Walk.{Differ}
use smartsnmp.Snmp.Packet.{Field, VarBind, Datagram, is_v3}
use smartsnmp.Snmp.MsgProc.{c_str, Agent, RetOid, no_access, principal, mib_get, mib_set, refuse}
use smartsnmp.Snmp.MsgProc.Loop.{search_list}
use smartsnmp.Snmp.MsgProc.Access.{
  granted, mib_get-search_list, mib_set_refused, mib_get_outside, mib_get_loses_error,
}

abbrev pub view : ℕ → View
view i = record { addr = i; oid = 1 ∷ i ∷ [] }

-- The name of one byte 112 may read 1.4 and 1.5, and write nothing.
abbrev pub public : Community
public = record { name = 112 ∷ []; ro_views = view 4 ∷ view 5 ∷ []; rw_views = [] }

-- Every handler answers an integer, with an error for 1.4.9.
abbrev pub integers : Lua
integers callback request (suc n ∷ inst_id) val =
    some record { err_stat = pos 5; inst_id = inst_id; value = word 7; tag = 2 }
integers callback request inst_id val =
    some record { err_stat = pos 0; inst_id = inst_id; value = word 7; tag = 2 }

abbrev pub agent : Agent
agent = record {
  lua_pcall = integers;
  tree = group_node 1 (cons 1 (group_node 1 (cons 4 (instance_node 8) nil)) nil);
  store = record { mib_views = []; mib_communities = public ∷ []; mib_users = [] };
}

abbrev pub field : ℕ → Field
field v = record { len = 1; val = v }

abbrev pub binding : ℕ → ℕ → VarBind
binding i j = record { oid = 1 ∷ i ∷ j ∷ []; value_type = 5; value = [] }

abbrev pub request : Datagram
request = record {
  version = field 1;
  v3 = none;
  context_name = 112 ∷ [];
  pdu_hdr = record { pdu_type = 0xa2; req_id = field 1; err_stat = field 0; err_idx = field 0 };
  vb_in_list = binding 4 0 ∷ [];
}

abbrev pub null_ret : RetOid
null_ret = record { id = []; err_stat = pos 0; var = record { tag = 5; value = word 0 } }

principal_run : principal agent.store request ≡ some public
unfolding principal is_v3 c_str mib_community_search same_name
principal_run = refl

views_Differ : Pairwise Differ (view 4 ∷ view 5 ∷ [])
views_Differ = ((refl, tt), (tt, tt))

view-IsOid : (i : ℕ) → i < 100 → IsOid (view i).oid
view-IsOid i h = record { words = omega arith; short = omega arith }

binding-IsOid : (i j : ℕ) → i < 100 → j < 100 → IsOid (binding i j).oid
binding-IsOid i j h k = record { words = omega arith; short = omega arith }

mib_get-search_list_example :
    mib_get agent request (binding 4 0) null_ret
    ≡ search_list agent 0xa0
        (1 ∷ 4 ∷ 0 ∷ [])
        (granted aces_read (principal agent.store request))
        (refuse (principal agent.store request) null_ret)
unfolding views_of
mib_get-search_list_example =
    mib_get-search_list agent request (binding 4 0) null_ret (rw principal_run views_Differ)

mib_set_refused_example :
    mib_set agent request (binding 4 0) null_ret
    ≡ some record { id = 1 ∷ 4 ∷ 0 ∷ []; err_stat = no_access; var = null_ret.var }
mib_set_refused_example =
    mib_set_refused agent request (binding 4 0) null_ret
      (λ c e.
        let p : public ≡ c = cc (principal_run, e) in
        subst (λ c. AllOids c.rw_views × (¬ Grants c.rw_views (1 ∷ 4 ∷ 0 ∷ []))) p (tt, λ g. g))
      (binding-IsOid 4 0 (omega arith) (omega arith))

outside : ¬ Grants (view 4 ∷ view 5 ∷ []) (1 ∷ 6 ∷ 0 ∷ [])
outside (inl (e, (f, u))) = omega arith
outside (inr (inl (e, (f, u)))) = omega arith
outside (inr (inr c)) = c

mib_get_outside_example :
    mib_get agent request (binding 6 0) null_ret
    ≡ some record { id = 1 ∷ 6 ∷ 0 ∷ []; err_stat = pos 0; var = retag 0x80 null_ret.var }
mib_get_outside_example =
    mib_get_outside agent request (binding 6 0) null_ret public (view 4) (view 5 ∷ []) principal_run
      refl views_Differ (view-IsOid 4 (omega arith), (view-IsOid 5 (omega arith), tt))
      (binding-IsOid 6 0 (omega arith) (omega arith)) outside

handler_fails :
    mib_tree_search integers 0xa0 null_ret.var (1 ∷ 4 ∷ []) (1 ∷ 4 ∷ 9 ∷ []) agent.tree
    ≡ some record {
      node = some (instance_node 8);
      inst_id = 9 ∷ [];
      err_stat = pos 5;
      var = record { tag = 2; value = word 0 };
    }
unfolding mib_tree_search search_down oid_cover oid_cmp slot_of oid_binary_search
    mib_instance_search to_int pattern32 stored of_reply
handler_fails = refl

not_ahead : is_neg (oid_cmp (1 ∷ 4 ∷ 9 ∷ []) (1 ∷ 4 ∷ [])) ≡ false
unfolding oid_cmp
not_ahead = refl

apart : ¬ Grants (view 5 ∷ []) (1 ∷ 4 ∷ 9 ∷ [])
apart (inl (e, (f, u))) = omega arith
apart (inr c) = c

mib_get_loses_error_example :
    mib_get agent request (binding 4 9) null_ret
    ≡ some record { id = 1 ∷ 4 ∷ 9 ∷ []; err_stat = pos 0; var = retag 0x80 null_ret.var }
mib_get_loses_error_example =
    mib_get_loses_error agent request (binding 4 9) null_ret public (view 4) (view 5) [] _
      principal_run refl views_Differ (view-IsOid 5 (omega arith), tt)
      (binding-IsOid 4 9 (omega arith) (omega arith)) apart handler_fails refl not_ahead

-- The same name may write 1.4 and 1.5.
abbrev writing : Community
writing = record { name = 112 ∷ []; ro_views = []; rw_views = view 4 ∷ view 5 ∷ [] }

abbrev writable : Agent
writable = record agent {
  store = record { mib_views = []; mib_communities = writing ∷ []; mib_users = [] };
}

writing_run : principal writable.store request ≡ some writing
unfolding principal is_v3 c_str mib_community_search same_name
writing_run = refl

not_below : ¬ Covers (1 ∷ 4 ∷ []) (1 ∷ 5 ∷ 0 ∷ [])
not_below (e, (f, u)) = omega arith

behind : is_neg (oid_cmp (1 ∷ 5 ∷ 0 ∷ []) (1 ∷ 4 ∷ [])) ≡ false
unfolding oid_cmp
behind = refl

mib_set_loses_value_example :
    (mib_set writable request (binding 5 0) null_ret
      ≡ search_list writable 0xa3
          (1 ∷ 5 ∷ 0 ∷ [])
          (view 5 ∷ [])
          record { id = 1 ∷ 5 ∷ 0 ∷ []; err_stat = pos 0; var = retag 0x80 null_ret.var })
    × (req_val 0xa3 (retag 0x80 null_ret.var) ≡ some (none, 0x80))
mib_set_loses_value_example =
    mib_set_loses_value writable request (binding 5 0) null_ret writing writing_run
      (view-IsOid 4 (omega arith), (view-IsOid 5 (omega arith), tt))
      (binding-IsOid 5 0 (omega arith) (omega arith)) views_Differ (view 4) (view 5) [] refl
      not_below behind (refl, (refl, tt))
