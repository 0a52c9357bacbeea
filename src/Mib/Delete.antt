-- ===== src/Mib/Delete.antt =====
-- Removal, `mib_tree_node_search`, `__mib_tree_delete` and `mib_node_unreg` of core/mib_tree.c.
pub mod Walk
pub mod Steps
pub mod Free
pub mod Effect
pub mod Missing
use smartsnmp.Base.{ℕ, zero, suc, ◌+◌, List, [], ◌∷◌, ◌++◌, Option, none, some}
use smartsnmp.Base.{ltb, leb, if◌then◌else◌, length}
use smartsnmp.Mib.Node.{Node, group_node, instance_node, Subs, found, vacant, null}
use smartsnmp.Mib.Node.{sub_ptr, sub_id_cnt, set_ptr, slot_of, group_node_shrink}

-- What `mib_tree_node_search` returns: a null pointer, or the child of the pair, with the indices
-- that lead from the root to it. The last of them is `sub_idx`, in the node that the others lead to,
-- `parent`; no index is the root itself.
pub data Search : Type 0 where
  miss : Search
  hit : List ℕ → Node → Search

unfoldable pub under : ℕ → Search → Search
under i miss = miss
under i (hit path n) = hit (i ∷ path) n

-- An instance node is found at its object identifier, and with one more sub-identifier behind it.
unfoldable pub mib_tree_node_search : List ℕ → Node → Search
unfolding under slot_of
mib_tree_node_search [] node = hit [] node
mib_tree_node_search (id ∷ oid) (instance_node c) = elim oid [
  | [] ↦ hit [] (instance_node c)
  | _ ↦ miss
]
mib_tree_node_search (id ∷ oid) (group_node room s) = elim (slot_of id s) [
  | found i n ↦ under i (mib_tree_node_search oid n)
  | vacant i ↦ miss
  | null ↦ miss
]

-- `group_node_shrink(pair->parent, pair->sub_idx)`
unfoldable pub shrink_at : List ℕ → Node → Node
unfolding group_node_shrink set_ptr sub_ptr
shrink_at [] node = node
shrink_at (i ∷ path) (instance_node c) = instance_node c
shrink_at (i ∷ []) (group_node room s) = group_node room (group_node_shrink i s)
shrink_at (i ∷ j ∷ path) (group_node room s) = elim (sub_ptr s i) [
  | none ↦ group_node room s
  | some n ↦ group_node room (set_ptr i (shrink_at (j ∷ path) n) s)
]

-- `mib_group_node_delete`, and `mib_instance_node_delete` with the handler that it unreferences.
pub data Event : Type 0 where
  free_group : Event
  unref : ℕ → Event

-- A `struct node_backlog`: a group, and the index to go on with, `none` for -1.
abbrev pub Backlog : Type 0
Backlog = Node × Option ℕ

-- `nbl_push` on a stack of MIB_OID_MAX_LEN entries: a full stack drops the entry.
unfoldable pub nbl_push : {A : Type 0} → A → List A → List A
nbl_push nbl stk = if ltb (length stk) 64 then nbl ∷ stk else stk

-- The index to visit: that of the popped entry, or the first.
unfoldable pub index_of : Option (Option ℕ) → Option ℕ
index_of none = some 0
index_of (some n_idx) = n_idx

-- The index to backlog.
unfoldable pub next_idx : ℕ → Subs → Option ℕ
next_idx i s = if leb (sub_id_cnt s) (i + 1) then none else some (i + 1)

-- The loop of `__mib_tree_delete` on fuel, over `node` (`here`), `p_nbl`, the stack and what has been freed;
-- `none` means that the fuel ran out.
unfoldable pub free_loop :
    ℕ → Option Node → Option (Option ℕ) → List Backlog → List Event → Option (List Event)
unfolding nbl_push index_of next_idx sub_ptr
free_loop zero here p_nbl stk freed = none
free_loop (suc fuel) here p_nbl stk freed =
    let pop : List Event → Option (List Event) = λ freed'. elim stk [
      | [] ↦ some freed'
      | (n, k) ∷ rest ↦ free_loop fuel (some n) (some k) rest freed'
    ] in
    elim here [
      | none ↦ pop freed
      | some (instance_node c) ↦ pop (freed ++ (unref c ∷ []))
      | some (group_node room s) ↦ elim (index_of p_nbl) [
        | none ↦ pop (freed ++ (free_group ∷ []))
        | some i ↦
            free_loop fuel (sub_ptr s i) none (nbl_push (group_node room s, next_idx i s) stk) freed
      ]
    ]

-- The root and what was freed; the root node itself is not deleted.
unfoldable pub mib_tree_delete : ℕ → Node → Search → Option (Node × List Event)
mib_tree_delete fuel root miss = some (root, [])
mib_tree_delete fuel root (hit [] n) = some (root, [])
mib_tree_delete fuel root (hit (i ∷ path) n) = elim (free_loop fuel (some n) none [] []) [
  | none ↦ none
  | some freed ↦ some (shrink_at (i ∷ path) root, freed)
]

unfoldable pub mib_node_unreg : ℕ → List ℕ → Node → Option (Node × List Event)
mib_node_unreg fuel oid root = mib_tree_delete fuel root (mib_tree_node_search oid root)
