-- ===== src/Mib/Insert/Steps.antt =====
-- The loop of `mib_tree_instance_insert`, a round at a time, and the rule for its result.
use smartsnmp.Base.{ltb-false}
use smartsnmp.Base.{inl}
use smartsnmp.Base.{ltb}
use smartsnmp.Base.{Bool-cases}
use smartsnmp.Base.{◌⊎◌}
use smartsnmp.Base.{◌<◌}
use smartsnmp.Base.{ℕ, ◌≡◌, inr, refl, arith}
use smartsnmp.Base.{List, [], ◌∷◌}
use smartsnmp.Mib.Node.{
  Node, group_node, instance_node, Subs, nil, cons, found, vacant, sub_id_cnt, put_sub, set_ptr,
  mib_group_node_new,
}
use smartsnmp.Mib.Node.Spec.{find, IsForest}
use smartsnmp.Mib.Node.Slots.{SlotView, slot_of_view}
use smartsnmp.Mib.Insert.{
  Inserted, inserted, refused, fault, graft, open_slot, room_for, within, mib_tree_instance_insert,
}

-- In a sorted group, newly allocated or not, the place or the child is the specification's.
pub open_slot_view : (id : ℕ) (s : Subs) → IsForest s → SlotView s id (open_slot id s)
unfolding open_slot sub_id_cnt
open_slot_view id nil h = inr (
  0,
  record {
    is_vacant = refl;
    inside = omega arith;
    below = λ k p. absurd (omega arith);
    above = λ k p q. absurd (omega arith);
    in_spec = unfold find in refl;
  },
)
open_slot_view id (cons k n s) h = slot_of_view id (cons k n s) h

-- A tree that an insertion returns has the property `P`, and a crash has `F`.
abbrev pub Ensures : Type 0 → (Node → Type 0) → Inserted → Type 0
Ensures F P (inserted n) = P n
Ensures F P refused = Unit {0}
Ensures F P fault = F

pub Ensures-graft :
    (F : Type 0) {P : Node → Type 0} (Q : Node → Type 0) (f : Node → Node) (r : Inserted)
    → Ensures F P r
    → ((n : Node) → P n → Q (f n))
    → Ensures F Q (graft f r)
unfolding graft
Ensures-graft F Q f (inserted n) h k = k n h
Ensures-graft F Q f refused h k = tt
Ensures-graft F Q f fault h k = h

pub Ensures-mono :
    (F : Type 0) (P Q : Node → Type 0) (r : Inserted)
    → ((n : Node) → P n → Q n)
    → Ensures F P r
    → Ensures F Q r
Ensures-mono F P Q (inserted n) k h = k n h
Ensures-mono F P Q refused k h = tt
Ensures-mono F P Q fault k h = h

pub Ensures-within :
    (F : Type 0) (P : Node → Type 0) (room : ℕ) (s : Subs) (r : Inserted)
    → (sub_id_cnt s < room_for room s) ⊎ F
    → Ensures F P r
    → Ensures F P (within room s r)
unfolding within
Ensures-within F P room s r fits h = elim (Bool-cases (ltb (sub_id_cnt s) (room_for room s))) [
  | inl t ↦ rw (within, t) h
  | inr t ↦
      rw (within, t)
        (elim fits [
          | inl lt ↦ absurd (omega (arith, lt, ltb-false (sub_id_cnt s) (room_for room s) t))
          | inr f ↦ f
        ])
]

-- One round of the loop, by what is found in the group.
pub insert_step :
    (id : ℕ) (oid : List ℕ) (callback room : ℕ) (s : Subs) (i : ℕ) (n : Node)
    → open_slot id s ≡ found i n
    → mib_tree_instance_insert (id ∷ oid) callback (group_node room s)
      ≡ graft (λ n'. group_node room (set_ptr i n' s)) (mib_tree_instance_insert oid callback n)
unfolding mib_tree_instance_insert
insert_step id oid callback room s i n e = rw (e, mib_tree_instance_insert) refl

pub insert_last :
    (id callback room : ℕ) (s : Subs) (i : ℕ)
    → open_slot id s ≡ vacant i
    → mib_tree_instance_insert (id ∷ []) callback (group_node room s)
      ≡ within room s (
          graft
            (λ n. group_node (room_for room s) (put_sub i id n s))
            (inserted (instance_node callback)))
unfolding mib_tree_instance_insert
insert_last id callback room s i e = rw (e, mib_tree_instance_insert) refl

pub insert_deeper :
    (id x : ℕ) (oid : List ℕ) (callback room : ℕ) (s : Subs) (i : ℕ)
    → open_slot id s ≡ vacant i
    → mib_tree_instance_insert (id ∷ x ∷ oid) callback (group_node room s)
      ≡ within room s (
          graft
            (λ n. group_node (room_for room s) (put_sub i id n s))
            (mib_tree_instance_insert (x ∷ oid) callback mib_group_node_new))
unfolding mib_tree_instance_insert
insert_deeper id x oid callback room s i e = rw (e, mib_tree_instance_insert) refl
