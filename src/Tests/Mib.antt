-- ===== src/Tests/Mib.antt =====
-- The MIB tree of core/mib_tree.c at concrete trees.
use smartsnmp.Base.{ℕ, ◌≡◌, ◌<◌, ◌⊎◌, ◌↔◌, [], ◌∷◌, some, refl, arith, length}
use smartsnmp.Base.Int.{pos, negsuc}
use smartsnmp.Mib.Node.{Node, group_node, instance_node, nil, cons, sub_ids, sub_id_cnt, slot_of}
use smartsnmp.Mib.Node.Spec.{IsTree, HasRoom}
use smartsnmp.Oid.BinarySearch.{oid_binary_search}
use smartsnmp.Mib.Insert.{mib_node_reg}
use smartsnmp.Mib.Insert.Lookup.{Adds}
use smartsnmp.Mib.Insert.Refused.{Overlaps}
use smartsnmp.Mib.Insert.Register.{reg_returns, reg_refused_iff, reg-Adds}

-- Handlers 7 at 1.3.5 and 8 at 1.4.
abbrev tree : Node
tree = group_node 1 (
    cons 1
      (group_node 4
        (cons 3 (group_node 1 (cons 5 (instance_node 7) nil)) (cons 4 (instance_node 8) nil)))
      nil)

abbrev larger : Node
larger = group_node 1 (
    cons 1
      (group_node 4 (
        cons 2 (instance_node 9)
          (cons 3 (group_node 1 (cons 5 (instance_node 7) nil)) (cons 4 (instance_node 8) nil))))
      nil)

tree-IsTree : IsTree tree
unfolding sub_ids
tree-IsTree = omega arith

tree-HasRoom : HasRoom tree
unfolding sub_id_cnt
tree-HasRoom = omega arith

reg_run : mib_node_reg (1 ∷ 2 ∷ []) 9 tree ≡ some (pos 0, larger)
unfolding mib_node_reg slot_of oid_binary_search
reg_run = refl

reg_returns_example :
    (mib_node_reg (1 ∷ 2 ∷ []) 9 tree ≡ some (negsuc 0, tree))
    ⊎ ((root' : Node) × (mib_node_reg (1 ∷ 2 ∷ []) 9 tree ≡ some (pos 0, root'))
        × IsTree root'
        × HasRoom root')
reg_returns_example = reg_returns (1 ∷ 2 ∷ []) 9 tree tree-IsTree tree-HasRoom (omega arith)

reg_refused_iff_example :
    (mib_node_reg (1 ∷ 4 ∷ 6 ∷ []) 9 tree ≡ some (negsuc 0, tree))
    ↔ ((length {A = ℕ} (1 ∷ 4 ∷ 6 ∷ []) ≡ 0) ⊎ (64 < 3) ⊎ Overlaps tree (1 ∷ 4 ∷ 6 ∷ []))
reg_refused_iff_example = reg_refused_iff (1 ∷ 4 ∷ 6 ∷ []) 9 tree tree-IsTree

reg-Adds_example : Adds (1 ∷ 2 ∷ []) 9 tree larger
reg-Adds_example = reg-Adds (1 ∷ 2 ∷ []) 9 tree tree-IsTree larger reg_run
