-- ===== src/Mib/Insert/Keeps.antt =====
-- What an insertion keeps: the order of the sub-identifiers, and the bounds of the arrays.
use smartsnmp.Base.{◌⊎◌}
use smartsnmp.Base.{◌<◌}
use smartsnmp.Mib.Insert.{sub_id_cnt}
use smartsnmp.Base.{ℕ, zero, suc, ◌≡◌, inl, inr}
use smartsnmp.Base.{List, [], ◌∷◌, some}
use smartsnmp.Mib.Node.{
  Node, group_node, instance_node, Subs, nil, cons, sub_ids, put_sub, set_ptr, mib_group_node_new,
}
use smartsnmp.Mib.Node.Spec.{find, find-IsTree, IsTree, IsForest}
use smartsnmp.Mib.Node.Arrays.{Ascends, Ascends-put_sub, sub_ids-set_ptr}
use smartsnmp.Mib.Node.Slots.{AtVacant, IsForest-Ascends}
use smartsnmp.Mib.Insert.{inserted, open_slot, room_for, mib_tree_instance_insert}
use smartsnmp.Mib.Insert.Steps.{
  open_slot_view, Ensures, Ensures-graft, Ensures-within, insert_step, insert_last, insert_deeper,
}

-- If `P` holds before, of the nodes on the path too, then `Q` holds after one round.
pub record Closed (F : Type 0) (P Q : Node → Type 0) : Type 0 where
  pub ordered : (room : ℕ) (s : Subs) → P (group_node room s) → IsForest s
  pub child : (room id : ℕ) (s : Subs) (n : Node) → P (group_node room s) → find id s ≡ some n → P n
  pub fresh : P mib_group_node_new
  pub leaf : (callback : ℕ) → Q (instance_node callback)
  pub set :
      (room i : ℕ) (s : Subs) (n : Node)
      → P (group_node room s)
      → Q n
      → Q (group_node room (set_ptr i n s))
  pub fits :
      (room id i : ℕ) (s : Subs)
      → P (group_node room s)
      → AtVacant s id (open_slot id s) i
      → (sub_id_cnt s < room_for room s) ⊎ F
  pub put :
      (room id i : ℕ) (s : Subs) (n : Node)
      → P (group_node room s)
      → Q n
      → AtVacant s id (open_slot id s) i
      → Q (group_node (room_for room s) (put_sub i id n s))

pub insert-Closed :
    (F : Type 0) (P Q : Node → Type 0) (oid : List ℕ) (callback : ℕ) (node : Node)
    → Closed F P Q
    → P node
    → Ensures F Q (mib_tree_instance_insert oid callback node)
insert-Closed F P Q [] callback node c h = unfold mib_tree_instance_insert in tt
insert-Closed F P Q (id ∷ oid) callback (instance_node k) c h =
    unfold mib_tree_instance_insert in tt
insert-Closed F P Q (id ∷ []) callback (group_node room s) c h =
    elim (open_slot_view id s (c.ordered room s h)) [
      | inl (i, n, at) ↦ rw (insert_step id [] callback room s i n at.is_found) (
          Ensures-graft F Q (λ n'. group_node room (set_ptr i n' s)) _
            (insert-Closed F P Q [] callback n c (c.child room id s n h at.in_spec))
            (λ n' q. c.set room i s n' h q))
      | inr (i, at) ↦ rw (insert_last id callback room s i at.is_vacant) (
          Ensures-within F Q room s _ (c.fits room id i s h at) (
            Ensures-graft F Q (λ n'. group_node (room_for room s) (put_sub i id n' s))
              (inserted (instance_node callback)) (c.leaf callback)
              (λ n' q. c.put room id i s n' h q at)))
    ]
insert-Closed F P Q (id ∷ x ∷ oid) callback (group_node room s) c h =
    elim (open_slot_view id s (c.ordered room s h)) [
      | inl (i, n, at) ↦ rw (insert_step id (x ∷ oid) callback room s i n at.is_found) (
          Ensures-graft F Q (λ n'. group_node room (set_ptr i n' s)) _
            (insert-Closed F P Q (x ∷ oid) callback n c (c.child room id s n h at.in_spec))
            (λ n' q. c.set room i s n' h q))
      | inr (i, at) ↦ rw (insert_deeper id x oid callback room s i at.is_vacant) (
          Ensures-within F Q room s _ (c.fits room id i s h at) (
            Ensures-graft F Q (λ n'. group_node (room_for room s) (put_sub i id n' s)) _
              (insert-Closed F P Q (x ∷ oid) callback mib_group_node_new c c.fresh)
              (λ n' q. c.put room id i s n' h q at)))
    ]

-- A change of one child.
pub IsForest-set_ptr :
    (i : ℕ) (s : Subs) (n : Node) → IsForest s → IsTree n → IsForest (set_ptr i n s)
unfolding set_ptr
IsForest-set_ptr i nil n h t = tt
IsForest-set_ptr zero (cons k m s) n h t = (h.0, t, h.2)
IsForest-set_ptr (suc i) (cons k m s) n h t =
    (rw (sub_ids-set_ptr i n s) h.0, h.1, IsForest-set_ptr i s n h.2 t)

-- The children are trees, whatever the order of their keys.
abbrev Trees : Subs → Type 0
Trees nil = Unit {0}
Trees (cons k n s) = IsTree n × Trees s

Trees-put_sub : (i id : ℕ) (s : Subs) (n : Node) → Trees s → IsTree n → Trees (put_sub i id n s)
unfolding put_sub
Trees-put_sub i id nil n h t = (t, tt)
Trees-put_sub zero id (cons k m s) n h t = (t, h)
Trees-put_sub (suc i) id (cons k m s) n h t = (h.0, Trees-put_sub i id s n h.1 t)

IsForest-Trees : (s : Subs) → IsForest s → Trees s
IsForest-Trees nil h = tt
IsForest-Trees (cons k n s) h = (h.1, IsForest-Trees s h.2)

Trees-IsForest : (s : Subs) → Ascends (sub_ids s) → Trees s → IsForest s
unfolding sub_ids
Trees-IsForest nil a h = tt
Trees-IsForest (cons k n s) a h = (a.0, h.0, Trees-IsForest s a.1 h.1)

IsTree-Closed : Closed (Unit {0}) IsTree IsTree
IsTree-Closed = record {
  ordered = λ room s h. h;
  child = λ room id s n h e. find-IsTree s id n h e;
  fresh = unfold mib_group_node_new in tt;
  leaf = λ callback. tt;
  set = λ room i s n h t. IsForest-set_ptr i s n h t;
  fits = λ room id i s h at. inr tt;
  put = λ room id i s n h t at.
      Trees-IsForest (put_sub i id n s)
        (Ascends-put_sub s i id n (IsForest-Ascends s h) at.below at.above at.inside)
        (Trees-put_sub i id s n (IsForest-Trees s h) t);
}

-- Every group stays sorted.
pub insert-IsTree :
    (oid : List ℕ) (callback : ℕ) (node : Node)
    → IsTree node
    → Ensures (Unit {0}) IsTree (mib_tree_instance_insert oid callback node)
insert-IsTree oid callback node h =
    insert-Closed (Unit {0}) IsTree IsTree oid callback node IsTree-Closed h
