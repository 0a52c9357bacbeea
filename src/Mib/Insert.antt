-- ===== src/Mib/Insert.antt =====
-- Registration, `mib_tree_instance_insert` and `mib_node_reg` of core/mib_tree.c.
pub mod Steps
pub mod Lookup
pub mod Keeps
pub mod Room
pub mod Refused
pub mod Register
use smartsnmp.Base.{ℕ, List, [], ◌∷◌, Option, none, some, ltb, ◌==◌, if◌then◌else◌, length}
use smartsnmp.Base.Int.{ℤ, pos, negsuc}
use smartsnmp.Mib.Node.{Node, group_node, instance_node, found, vacant, null}
use smartsnmp.Mib.Node.{
  set_ptr, put_sub, expand_cap, is_raw_group, slot_of, sub_id_cnt, Slot, Subs, mib_group_node_new,
}

-- The tree after an insertion, the null pointer that stands for "bad traversal", or a crash.
pub data Inserted : Type 0 where
  inserted : Node → Inserted
  refused : Inserted
  fault : Inserted

-- The pointer to the changed child is unchanged in its parent.
unfoldable pub graft : (Node → Node) → Inserted → Inserted
graft f (inserted n) = inserted (f n)
graft f refused = refused
graft f fault = fault

-- In a newly allocated group the first place is taken as it is; any other is searched.
unfoldable pub open_slot : ℕ → Subs → Slot
unfolding is_raw_group slot_of
open_slot id s = if is_raw_group s then vacant 0 else slot_of id s

unfoldable pub room_for : ℕ → Subs → ℕ
unfolding is_raw_group expand_cap
room_for room s = if is_raw_group s then room else expand_cap room s

-- The new entry, and the entries that are moved up, are written behind the arrays where the capacity, a
-- `uint16_t`, has wrapped.
unfoldable pub within : ℕ → Subs → Inserted → Inserted
unfolding room_for sub_id_cnt
within room s r = if ltb (sub_id_cnt s) (room_for room s) then r else fault

unfoldable pub mib_tree_instance_insert : List ℕ → ℕ → Node → Inserted
unfolding graft open_slot room_for within put_sub set_ptr mib_group_node_new
mib_tree_instance_insert [] callback node = refused
mib_tree_instance_insert (id ∷ oid) callback (instance_node c) = refused
mib_tree_instance_insert (id ∷ oid) callback (group_node room s) =
    let deeper = mib_tree_instance_insert oid callback mib_group_node_new in
    elim (open_slot id s) [
      | found i child ↦
          graft (λ n. group_node room (set_ptr i n s)) (mib_tree_instance_insert oid callback child)
      | vacant i ↦ within room s (
          graft (λ n. group_node (room_for room s) (put_sub i id n s))
            (elim oid [ [] ↦ inserted (instance_node callback) | r ∷ rs ↦ deeper ]))
      | null ↦ fault
    ]

-- The status that `mib_node_reg` returns, and the root.
unfoldable pub reg_result : Node → Inserted → Option (ℤ × Node)
reg_result root (inserted n) = some (pos 0, n)
reg_result root refused = some (negsuc 0, root)
reg_result root fault = none

-- `none` is a crash. MIB_OID_MAX_LEN is 64.
unfoldable pub mib_node_reg : List ℕ → ℕ → Node → Option (ℤ × Node)
unfolding mib_tree_instance_insert reg_result
mib_node_reg oid callback root =
    if length oid == 0
    then some (negsuc 0, root)
    else if ltb 64 (length oid)
    then some (negsuc 0, root)
    else reg_result root (mib_tree_instance_insert oid callback root)
