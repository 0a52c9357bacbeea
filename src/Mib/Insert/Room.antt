-- ===== src/Mib/Insert/Room.antt =====
-- The capacities of the arrays, which `group_node_expand` keeps in a `uint16_t`.
use smartsnmp.Base.{ℕ, zero, suc, ◌+◌, ◌≡◌, ◌≤◌, ◌<◌, inl, inr, refl, subst, arith}
use smartsnmp.Base.{some, ◌==◌, List, Bool-cases}
use smartsnmp.Mib.Node.{
  Node, group_node, instance_node, Subs, nil, cons, sub_id_cnt, put_sub, set_ptr, expand_cap,
  mib_group_node_new,
}
use smartsnmp.Mib.Node.Spec.{find, find-IsTree, IsTree, HasRoom, AllRoom}
use smartsnmp.Mib.Node.Arrays.{sub_ids-set_ptr, sub_id_cnt-put_sub}
use smartsnmp.Mib.Insert.{room_for, mib_tree_instance_insert}
use smartsnmp.Mib.Insert.Steps.{Ensures}
use smartsnmp.Mib.Insert.Keeps.{Closed, insert-Closed}

-- No group has a capacity that the next growth takes past 65535.
abbrev mutual
  pub IsModest : Node → Type 0
  IsModest (group_node room s) = (room ≤ 43688) × AllModest s
  IsModest (instance_node c) = Unit {0}

  pub AllModest : Subs → Type 0
  AllModest nil = Unit {0}
  AllModest (cons id n s) = IsModest n × AllModest s

-- One growth: enough for one more entry exactly up to a capacity of 43688 in a full group.
pub expand_cap_enough :
    (room : ℕ) (s : Subs)
    → sub_id_cnt s ≤ room
    → room ≤ 43688
    → sub_id_cnt s + 1 ≤ expand_cap room s
unfolding expand_cap
expand_cap_enough room s h modest = ground arith

-- In a full group of 43689 to 65535 entries the `uint16_t` wraps, and the capacity falls below the
-- number of entries that it has to hold.
pub expand_cap_wraps :
    (room : ℕ) (s : Subs)
    → sub_id_cnt s ≡ room
    → 43689 ≤ room
    → room < 65536
    → expand_cap room s < sub_id_cnt s + 1
unfolding expand_cap
expand_cap_wraps room s h big small = ground arith

room_for_enough :
    (room : ℕ) (s : Subs)
    → 1 ≤ room
    → sub_id_cnt s ≤ room
    → room ≤ 43688
    → sub_id_cnt s + 1 ≤ room_for room s
unfolding room_for sub_id_cnt
room_for_enough room nil one h modest = omega arith
room_for_enough room (cons k n s) one h modest = expand_cap_enough room (cons k n s) h modest

AllRoom-set_ptr : (i : ℕ) (s : Subs) (n : Node) → AllRoom s → HasRoom n → AllRoom (set_ptr i n s)
unfolding set_ptr
AllRoom-set_ptr i nil n h t = tt
AllRoom-set_ptr zero (cons k m s) n h t = (t, h.1)
AllRoom-set_ptr (suc i) (cons k m s) n h t = (h.0, AllRoom-set_ptr i s n h.1 t)

AllRoom-put_sub :
    (i id : ℕ) (s : Subs) (n : Node) → AllRoom s → HasRoom n → AllRoom (put_sub i id n s)
unfolding put_sub
AllRoom-put_sub i id nil n h t = (t, tt)
AllRoom-put_sub zero id (cons k m s) n h t = (t, h)
AllRoom-put_sub (suc i) id (cons k m s) n h t = (h.0, AllRoom-put_sub i id s n h.1 t)

-- What is asked of the tree before an insertion.
abbrev Before : Node → Type 0
Before n = IsTree n × HasRoom n × IsModest n

find-HasRoom :
    (s : Subs) (id : ℕ) (n : Node)
    → AllRoom s
    → AllModest s
    → find id s ≡ some n
    → HasRoom n × IsModest n
unfolding find
find-HasRoom nil id n r m e = cc
find-HasRoom (cons k c s) id n r m e = elim (Bool-cases (k == id)) [
  | inl t ↦
      (let p : some c ≡ some n = rw t at e in
        let q : c ≡ n = cc in subst (λ z. HasRoom z × IsModest z) q (r.0, m.0))
  | inr f ↦ find-HasRoom s id n r.1 m.1 (rw f at e)
]

sub_id_cnt-set_ptr : (i : ℕ) (n : Node) (s : Subs) → sub_id_cnt (set_ptr i n s) ≡ sub_id_cnt s
unfolding sub_id_cnt
sub_id_cnt-set_ptr i n s = rw (sub_ids-set_ptr i n s) refl

HasRoom-Closed : Closed ⊥ Before HasRoom
HasRoom-Closed = record {
  ordered = λ room s h. h.0;
  child = λ room id s n h e.
      let (r, m) = find-HasRoom s id n h.1.2 h.2.1 e in (find-IsTree s id n h.0 e, r, m);
  fresh = unfold mib_group_node_new sub_id_cnt in omega arith;
  leaf = λ callback. tt;
  set =
      λ room i s n h t. (h.1.0, rw (sub_id_cnt-set_ptr i n s) h.1.1, AllRoom-set_ptr i s n h.1.2 t);
  fits = λ room id i s h at. inl (omega (arith, room_for_enough room s h.1.0 h.1.1 h.2.0));
  put = λ room id i s n h t at. (
    omega (arith, room_for_enough room s h.1.0 h.1.1 h.2.0),
    rw (sub_id_cnt-put_sub s i id n) (room_for_enough room s h.1.0 h.1.1 h.2.0),
    AllRoom-put_sub i id s n h.1.2 t,
  );
}

-- While no capacity passes 43688, an insertion does not crash: every write lies inside its array.
pub insert-HasRoom :
    (oid : List ℕ) (callback : ℕ) (node : Node)
    → IsTree node
    → HasRoom node
    → IsModest node
    → Ensures ⊥ HasRoom (mib_tree_instance_insert oid callback node)
insert-HasRoom oid callback node t r m =
    insert-Closed ⊥ Before HasRoom oid callback node HasRoom-Closed (t, r, m)
