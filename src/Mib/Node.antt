-- ===== src/Mib/Node.antt =====
-- The nodes of the MIB tree (core/mib.h, core/mib_tree.c) and the operations on one group node.
-- The arrays `sub_id` and `sub_ptr` of a group node, up to `sub_id_cnt`, are one list of pairs. The
-- place behind them matters in one way: `sub_id[0]` is 0 in an empty group, as `calloc`, `mib_init`
-- and `group_node_shrink` leave it, so `is_raw_group` is the test for an empty list.
pub mod Spec
pub mod Arrays
pub mod Slots
pub mod Rest
use smartsnmp.Base.{
  ℕ, zero, suc, ◌+◌, ◌*◌, ◌/◌, ◌%◌, List, [], ◌∷◌, Option, none, some, Bool, true, false,
}
use smartsnmp.Base.{ltb, if◌then◌else◌, length}
use smartsnmp.Base.Int.{ℤ, pos, negsuc}
use smartsnmp.Oid.BinarySearch.{oid_binary_search}

mutual
  pub data Node : Type 0 where
    -- `sub_id_cap`, and the children
    group_node : ℕ → Subs → Node
    -- `callback`
    instance_node : ℕ → Node

  pub data Subs : Type 0 where
    nil : Subs
    cons : ℕ → Node → Subs → Subs

-- `sub_id`
unfoldable pub sub_ids : Subs → List ℕ
sub_ids nil = []
sub_ids (cons id n s) = id ∷ sub_ids s

-- `sub_ptr[i]`; `none` past the end
unfoldable pub sub_ptr : Subs → ℕ → Option Node
sub_ptr nil i = none
sub_ptr (cons id n s) zero = some n
sub_ptr (cons id n s) (suc i) = sub_ptr s i

unfoldable pub sub_id_cnt : Subs → ℕ
unfolding sub_ids
sub_id_cnt s = length (sub_ids s)

unfoldable pub is_raw_group : Subs → Bool
is_raw_group nil = true
is_raw_group (cons id n s) = false

-- `alloc_nr` of core/util.h
unfoldable pub alloc_nr : ℕ → ℕ
alloc_nr x = (x + 2) * 3 / 2

-- The `uint16_t` capacity that `group_node_expand` leaves.
unfoldable pub expand_cap : ℕ → Subs → ℕ
unfolding sub_id_cnt alloc_nr
expand_cap room s = if ltb room (sub_id_cnt s + 1) then alloc_nr room % 65536 else room

-- The entries from `index` on move up, and the new one is written there.
unfoldable pub put_sub : ℕ → ℕ → Node → Subs → Subs
put_sub index id n nil = cons id n nil
put_sub zero id n (cons k m s) = cons id n (cons k m s)
put_sub (suc index) id n (cons k m s) = cons k m (put_sub index id n s)

-- The children once the one at `index` has been changed in place.
unfoldable pub set_ptr : ℕ → Node → Subs → Subs
set_ptr index n nil = nil
set_ptr zero n (cons k m s) = cons k n s
set_ptr (suc index) n (cons k m s) = cons k m (set_ptr index n s)

-- The entries above `index` move down; the only entry is cleared.
unfoldable pub group_node_shrink : ℕ → Subs → Subs
group_node_shrink index nil = nil
group_node_shrink index (cons k m nil) = nil
group_node_shrink zero (cons k m (cons k' m' s)) = cons k' m' s
group_node_shrink (suc index) (cons k m (cons k' m' s)) =
    cons k m (group_node_shrink index (cons k' m' s))

unfoldable pub mib_group_node_new : Node
mib_group_node_new = group_node 1 nil

-- The root after `mib_init`.
unfoldable pub mib_init : Node
mib_init = group_node 1 nil

-- What a search for one sub-identifier in a group finds: a child, the place for one, or a null
-- pointer at the index found, which `Arrays` excludes.
pub data Slot : Type 0 where
  found : ℕ → Node → Slot
  vacant : ℕ → Slot
  null : Slot

unfoldable pub child_at : ℕ → Option Node → Slot
child_at i (some n) = found i n
child_at i none = null

-- `i = oid_binary_search(gn->sub_id, gn->sub_id_cnt, *oid)`: for `i >= 0` the child, and
-- otherwise the place `-i - 1`.
unfoldable pub slot_of : ℕ → Subs → Slot
unfolding sub_ids sub_ptr child_at
slot_of id s = elim (oid_binary_search (sub_ids s) id) [
  | pos i ↦ child_at i (sub_ptr s i)
  | negsuc i ↦ vacant i
]
