-- ===== src/Tests/Search.antt =====
-- GET in the MIB tree of core/mib_tree.c at a concrete tree and handler.
use smartsnmp.Mib.Stored.{to_int, stored}
use smartsnmp.Base.Int.{pattern32}
use smartsnmp.Base.{◌<◌}
use smartsnmp.Base.{ℕ, [], ◌∷◌, ◌≡◌, some, refl, arith}
use smartsnmp.Base.Int.{pos}
use smartsnmp.Ber.Value.{word}
use smartsnmp.Oid.{oid_cmp, oid_cover}
use smartsnmp.Oid.BinarySearch.{oid_binary_search}
use smartsnmp.Oid.Compare.{IsOid}
use smartsnmp.Mib.Node.{Node, group_node, instance_node, nil, cons, sub_ids, slot_of}
use smartsnmp.Mib.Node.Spec.{IsTree, handler_at}
use smartsnmp.Mib.Insert.{mib_node_reg}
use smartsnmp.Mib.Search.{
  Lua, Variable, SearchRes, mib_instance_search, of_reply, search_down, mib_tree_search,
}
use smartsnmp.Mib.Search.Get.{search-Absent, Unclaimed}
use smartsnmp.Mib.Search.Registered.{reg-search}

-- Handler 8 at 1.4.
abbrev tree : Node
tree = group_node 1 (cons 1 (group_node 1 (cons 4 (instance_node 8) nil)) nil)

abbrev larger : Node
larger =
    group_node 1
      (cons 1 (group_node 4 (cons 2 (instance_node 9) (cons 4 (instance_node 8) nil))) nil)

-- Every handler answers an integer.
abbrev integers : Lua
integers callback request inst_id val =
    some record { err_stat = pos 0; inst_id = inst_id; value = word 7; tag = 2 }

abbrev asked : Variable
asked = record { tag = 5; value = word 0 }

tree-IsTree : IsTree tree
unfolding sub_ids
tree-IsTree = omega arith

IsOid-one : IsOid (1 ∷ [])
IsOid-one = record { words = omega arith; short = omega arith }

IsOid-three : (x : ℕ) → x < 100 → IsOid (1 ∷ x ∷ 0 ∷ [])
IsOid-three x h = record { words = omega (arith, h); short = omega arith }

IsOid-two : IsOid (1 ∷ 4 ∷ [])
IsOid-two = record { words = omega arith; short = omega arith }

handler_at-tree : handler_at tree (1 ∷ 4 ∷ []) ≡ some 8
unfolding handler_at
handler_at-tree = refl

search_run :
    mib_tree_search integers 0xa0 asked (1 ∷ []) (1 ∷ 4 ∷ 0 ∷ []) tree
    ≡ some record {
      node = some (instance_node 8);
      inst_id = 0 ∷ [];
      err_stat = pos 0;
      var = record { tag = 2; value = word 7 };
    }
unfolding mib_tree_search search_down oid_cover oid_cmp slot_of oid_binary_search
    mib_instance_search to_int pattern32 stored of_reply
search_run = refl

Unclaimed-tree : Unclaimed (2 ∷ []) tree
unfolding handler_at
Unclaimed-tree [] q e = refl
Unclaimed-tree (x ∷ p) q e = let f : x ≡ 2 = cc in rw f refl

search-Absent_example :
    (r : SearchRes) × (r.var.tag ≡ 0x80)
    × (r.err_stat ≡ pos 0)
    × ((lua_pcall : Lua) → mib_tree_search lua_pcall 0xa0 asked (1 ∷ []) (2 ∷ []) tree ≡ some r)
search-Absent_example = search-Absent 0xa0 asked (1 ∷ []) (2 ∷ []) tree tree-IsTree Unclaimed-tree

reg_run : mib_node_reg (1 ∷ 2 ∷ []) 9 tree ≡ some (pos 0, larger)
unfolding mib_node_reg slot_of oid_binary_search
reg_run = refl

reg-search_example :
    mib_tree_search integers 0xa0 asked (1 ∷ []) (1 ∷ 2 ∷ 0 ∷ []) larger
    ≡ of_reply (instance_node 9) (mib_instance_search integers 9 0xa0 asked (0 ∷ []))
reg-search_example =
    reg-search (1 ∷ 2 ∷ []) 9 tree larger tree-IsTree reg_run integers 0xa0 asked (1 ∷ []) 0 []
      IsOid-one (IsOid-three 2 (omega arith)) (refl, tt)
