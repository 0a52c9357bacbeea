-- ===== src/Tests/Next.antt =====
-- GETNEXT of core/mib_tree.c and core/snmp_msg_proc.c at a concrete tree and handlers.
use smartsnmp.Base.{subst, sym, ℕ, ◌≡◌, ◌≢◌, ◌<◌, ◌+◌, refl, inr, some, arith, [], ◌∷◌, ◌%◌, true}
use smartsnmp.Oid.{oid_cmp, oid_cover}
use smartsnmp.Base.Int.{pattern32, pos, is_zero}
use smartsnmp.Ber.Value.{word}
use smartsnmp.Mib.Delete.{nbl_push}
use smartsnmp.Mib.Delete.Walk.{height, rounds}
use smartsnmp.Mib.Node.{
  Node, group_node, instance_node, nil, cons, sub_ids, slot_of, sub_ptr, sub_id_cnt,
}
use smartsnmp.Mib.Node.Spec.{IsTree, handler_at}
use smartsnmp.Mib.Search.{
  Lua, Variable, Reply, mib_tag_valid, mib_instance_search, of_reply, search_down, mib_tree_search,
}
use smartsnmp.Mib.SearchNext.{
  NextRes, next, out_of_fuel, settle, end_of_view, next_loop, next_from, next_at, mode_in,
  mib_tree_search_next, ask, judge, proceed, entry_of, sub_id_at, inst_id_of, node_of, idx_of,
  shorter,
}
use smartsnmp.Mib.SearchNext.Ahead.{Follows}
use smartsnmp.Mib.SearchNext.Answered.{search_next-greater}
use smartsnmp.Mib.SearchNext.Calls.{answer, calls_from}
use smartsnmp.Mib.SearchNext.Greater.{Advances}
use smartsnmp.Mib.SearchNext.Promises.{search_next_complete, search_next-ends}
use smartsnmp.Mib.SearchNext.Resume.{next_loop-calls}
use smartsnmp.Mib.SearchNext.Unmoved.{Declines}
use smartsnmp.Mib.SearchNext.Words.{HasWords}
use smartsnmp.Mib.Stored.{to_int, to_oids, stored}
use smartsnmp.Oid.BinarySearch.{oid_binary_search}
use smartsnmp.Oid.Compare.{IsOid, IsSmall, LexLt}

-- Handlers 8 at 1.4 and 9 at 1.5.
abbrev pub tree : Node
tree =
    group_node 1
      (cons 1 (group_node 4 (cons 4 (instance_node 8) (cons 5 (instance_node 9) nil))) nil)

-- Every handler has the instance 0.
abbrev pub nexts : Lua
nexts callback request [] val =
    some record { err_stat = pos 0; inst_id = 0 ∷ []; value = word 7; tag = 2 }
nexts callback request (x ∷ inst_id) val =
    some record { err_stat = pos 0; inst_id = []; value = word 0; tag = 0x80 }

abbrev asked : Variable
asked = record { tag = 5; value = word 0 }

pub nexts-Advances : Advances nexts
unfolding mib_tag_valid to_int pattern32
nexts-Advances callback [] r e v =
    let q : record { err_stat = pos 0; inst_id = 0 ∷ []; value = word 7; tag = 2 } ≡ r = cc in
    subst (λ (x : Reply). (is_zero (to_int x.err_stat) ≡ true) × LexLt [] (to_oids x.inst_id)) q
      (refl, tt)
nexts-Advances callback (x ∷ inst_id) r e v =
    let q : record { err_stat = pos 0; inst_id = []; value = word 0; tag = 0x80 } ≡ r = cc in
    let t : mib_tag_valid (0x80 % 256) ≡ true =
      subst (λ (x : Reply). mib_tag_valid (x.tag % 256) ≡ true) (sym q) v in
    cc

pub tree-IsTree : IsTree tree
unfolding sub_ids
tree-IsTree = omega arith

pub height-tree : height tree < 3
unfolding height
height-tree = omega arith

IsSmall-one : IsSmall (1 ∷ [])
IsSmall-one = record { words = omega arith; short = omega arith }

IsOid-one : IsOid (1 ∷ [])
IsOid-one = record { words = omega arith; short = omega arith }

abbrev first : NextRes
first = record { oid = 1 ∷ 5 ∷ 0 ∷ []; err_stat = pos 0; var = record { tag = 2; value = word 7 } }

abbrev last : NextRes
last = record {
  oid = 1 ∷ 5 ∷ 0 ∷ [];
  err_stat = pos 0;
  var = record { tag = 0x82; value = word 0 };
}

first_run : mib_tree_search_next nexts asked (1 ∷ []) (1 ∷ 4 ∷ 0 ∷ []) tree ≡ next first
unfolding mib_tree_search_next next_at next_from next_loop mode_in mib_tree_search search_down
    oid_cover oid_cmp slot_of oid_binary_search mib_instance_search to_int pattern32 stored of_reply
    rounds ask judge proceed entry_of sub_id_at inst_id_of node_of idx_of shorter nbl_push sub_ptr
    sub_id_cnt settle sub_ids
first_run = refl

last_run : mib_tree_search_next nexts asked (1 ∷ []) (1 ∷ 5 ∷ 0 ∷ []) tree ≡ next last
unfolding mib_tree_search_next next_at next_from next_loop mode_in mib_tree_search search_down
    oid_cover oid_cmp slot_of oid_binary_search mib_instance_search to_int pattern32 stored of_reply
    rounds ask judge proceed entry_of sub_id_at inst_id_of node_of idx_of shorter nbl_push sub_ptr
    sub_id_cnt settle sub_ids end_of_view
last_run = refl

view_run :
    mib_tree_search nexts 0xa0 asked (1 ∷ []) (1 ∷ []) tree
    ≡ some record {
      node = some (group_node 4 (cons 4 (instance_node 8) (cons 5 (instance_node 9) nil)));
      inst_id = [];
      err_stat = pos 0;
      var = record { tag = 0x80; value = word 0 };
    }
unfolding mib_tree_search search_down oid_cover oid_cmp slot_of oid_binary_search
view_run = refl

IsSmall-asked : (x : ℕ) → x < 100 → IsSmall (1 ∷ x ∷ 0 ∷ [])
IsSmall-asked x h = record { words = omega (arith, h); short = omega arith }

IsOid-asked : (x : ℕ) → x < 100 → IsOid (1 ∷ x ∷ 0 ∷ [])
IsOid-asked x h = record { words = omega (arith, h); short = omega arith }

tree-HasWords : HasWords tree
tree-HasWords = omega arith

search_next-greater_example : IsOid first.oid × Follows (1 ∷ []) (1 ∷ 4 ∷ 0 ∷ []) first
search_next-greater_example =
    search_next-greater nexts asked (1 ∷ []) (1 ∷ 4 ∷ 0 ∷ []) tree first IsSmall-one
      (IsSmall-asked 4 (omega arith)) tree-IsTree tree-HasWords (omega (arith, height-tree))
      nexts-Advances first_run

handler_at-last : handler_at tree (1 ∷ 5 ∷ []) ≡ some 9
unfolding handler_at
handler_at-last = refl

search_next_complete_example :
    Declines nexts (1 ∷ []) record { callback = 9; base = 1 ∷ 5 ∷ []; inst_id = 0 ∷ [] }
search_next_complete_example =
    search_next_complete nexts asked (1 ∷ []) (1 ∷ 5 ∷ 0 ∷ []) (1 ∷ 5 ∷ []) tree _ last 9 IsOid-one
      (IsOid-asked 5 (omega arith)) tree-IsTree (omega (arith, height-tree)) (refl, tt) view_run
      last_run refl (refl, tt) handler_at-last (inr (refl, (refl, tt)))

search_next-ends_example :
    mib_tree_search_next nexts asked (1 ∷ []) (1 ∷ 4 ∷ 0 ∷ []) tree ≢ out_of_fuel
search_next-ends_example =
    search_next-ends nexts asked (1 ∷ []) (1 ∷ 4 ∷ 0 ∷ []) tree IsOid-one
      (IsOid-asked 4 (omega arith)) tree-IsTree (omega (arith, height-tree))

next_loop-calls_example :
    next_loop nexts
      (1 ∷ [])
      (1 ∷ 4 ∷ 0 ∷ [])
      (rounds tree + 1 + 3)
      (some tree)
      0
      (settle (some tree) (1 ∷ 4 ∷ 0 ∷ []))
      []
      []
      asked
    ≡ answer nexts
        (1 ∷ [])
        (calls_from tree (1 ∷ 4 ∷ 0 ∷ []) [])
        (λ v. next (end_of_view (1 ∷ 4 ∷ 0 ∷ []) v))
        asked
next_loop-calls_example =
    next_loop-calls nexts (1 ∷ []) (1 ∷ 4 ∷ 0 ∷ []) tree (1 ∷ 4 ∷ 0 ∷ []) [] 3 asked tree-IsTree
      (omega (arith, height-tree))
