-- ===== src/Tests/Delete.antt =====
-- Removal from the MIB tree of core/mib_tree.c at concrete trees.
use smartsnmp.Base.{◌+◌}
use smartsnmp.Base.{[], ◌∷◌, some, none, refl, arith, ◌≡◌}
use smartsnmp.Mib.Node.{
  Node, group_node, instance_node, nil, cons, sub_ids, slot_of, sub_ptr, sub_id_cnt,
}
use smartsnmp.Mib.Node.Spec.{IsTree, handler_at, node_at}
use smartsnmp.Oid.BinarySearch.{oid_binary_search}
use smartsnmp.Mib.Delete.{
  free_loop, mib_node_unreg, free_group, unref, mib_tree_node_search, mib_tree_delete, shrink_at,
  under,
}
use smartsnmp.Mib.Delete.Walk.{events, rounds, height}
use smartsnmp.Mib.Delete.Free.{free_loop-events}
use smartsnmp.Mib.Delete.Effect.{Removes, unreg-Removes}
use smartsnmp.Mib.Delete.Missing.{unreg_missing, IsBehind}

-- Handlers 7 at 1.3.5 and 8 at 1.4.
abbrev part : Node
part =
    group_node 4
      (cons 3 (group_node 1 (cons 5 (instance_node 7) nil)) (cons 4 (instance_node 8) nil))

abbrev tree : Node
tree = group_node 1 (cons 1 part nil)

abbrev bare : Node
bare = group_node 1 (cons 1 (group_node 4 (cons 4 (instance_node 8) nil)) nil)

tree-IsTree : IsTree tree
unfolding sub_ids
tree-IsTree = omega arith

height-part : height part ≡ 2
unfolding height
height-part = refl

unreg_run : mib_node_unreg 20 (1 ∷ 3 ∷ []) tree ≡ some (bare, unref 7 ∷ free_group ∷ [])
unfolding mib_node_unreg mib_tree_node_search mib_tree_delete shrink_at free_loop slot_of
    oid_binary_search under sub_ptr sub_id_cnt
unreg_run = refl

-- Too little fuel is not enough.
unreg_short : mib_node_unreg 2 (1 ∷ 3 ∷ []) tree ≡ none
unfolding mib_node_unreg mib_tree_node_search mib_tree_delete shrink_at free_loop slot_of
    oid_binary_search under sub_ptr sub_id_cnt
unreg_short = refl

free_loop-events_example : free_loop (rounds part + 3) (some part) none [] [] ≡ some (events part)
free_loop-events_example = free_loop-events part 3 (omega (arith, height-part))

node_at-tree : node_at tree (1 ∷ []) ≡ some part
unfolding node_at
node_at-tree = refl

unreg-Removes_example :
    (root' : Node) × (mib_node_unreg (rounds part + 5) (1 ∷ []) tree ≡ some (root', events part))
    × IsTree root'
    × Removes (1 ∷ []) tree root'
unreg-Removes_example =
    unreg-Removes 1 [] tree part 5 tree-IsTree node_at-tree (omega (arith, height-part))

handler_at-tree : handler_at tree (1 ∷ 4 ∷ []) ≡ some 8
unfolding handler_at
handler_at-tree = refl

node_at-absent : node_at tree (2 ∷ []) ≡ none
unfolding node_at
node_at-absent = refl

not-IsBehind : ¬ IsBehind (2 ∷ []) tree
unfolding handler_at
not-IsBehind ([], x, c, e, h) = cc
not-IsBehind (y ∷ [], x, c, e, h) = cc
not-IsBehind (y ∷ z ∷ p, x, c, e, h) = cc

unreg_missing_example : mib_node_unreg 20 (2 ∷ []) tree ≡ some (tree, [])
unreg_missing_example = unreg_missing 20 (2 ∷ []) tree tree-IsTree node_at-absent not-IsBehind
