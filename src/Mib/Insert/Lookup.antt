-- ===== src/Mib/Insert/Lookup.antt =====
-- An insertion adds one handler and keeps the others.
use smartsnmp.Mib.Insert.{within}
use smartsnmp.Base.{ℕ, ◌≡◌, ◌&&◌, Bool, true, false, inl, inr, refl, subst, ◌∙◌}
use smartsnmp.Base.{List, [], ◌∷◌, none, some, ◌==◌, ==→eq, if◌then◌else◌, Bool-cases}
use smartsnmp.Mib.Node.{Node, group_node, instance_node, Subs, put_sub, set_ptr, mib_group_node_new}
use smartsnmp.Mib.Node.Spec.{
  find, handler_at, handler_at_step, handler_at_miss, handler_at-congr, find-IsTree, IsTree,
  IsForest,
}
use smartsnmp.Mib.Node.Arrays.{find-set_ptr, find-put_sub}
use smartsnmp.Mib.Node.Slots.{AtFound, AtVacant, IsForest-Ascends}
use smartsnmp.Mib.Insert.Steps.{
  open_slot_view, Ensures, Ensures-graft, Ensures-within, Ensures-mono, insert_step, insert_last,
  insert_deeper,
}
use smartsnmp.Mib.Insert.{Inserted, inserted, graft, open_slot, room_for, mib_tree_instance_insert}

-- The two object identifiers are equal.
unfoldable pub same_oid : List ℕ → List ℕ → Bool
same_oid [] [] = true
same_oid [] (y ∷ b) = false
same_oid (x ∷ a) [] = false
same_oid (x ∷ a) (y ∷ b) = (x == y) && same_oid a b

-- Exactly the handler at `oid` is new.
abbrev pub Adds : List ℕ → ℕ → Node → Node → Type 0
Adds oid callback node node' =
    (q : List ℕ)
    → handler_at node' q ≡ (if same_oid oid q then some callback else handler_at node q)

Adds-child :
    (oid : List ℕ) (room room' id callback : ℕ) (s s' : Subs) (n n' : Node)
    → ((j : ℕ) → find j s' ≡ (if id == j then some n' else find j s))
    → find id s ≡ some n
    → Adds oid callback n n'
    → Adds (id ∷ oid) callback (group_node room s) (group_node room' s')
unfolding same_oid
Adds-child oid room room' id callback s s' n n' h e a [] = unfold handler_at in refl
Adds-child oid room room' id callback s s' n n' h e a (y ∷ q) = elim (Bool-cases (id == y)) [
  | inl t ↦
      rw
        (
          handler_at_step room' y q s' n' (h y ∙ rw t refl),
          handler_at_step room y q s n (subst (λ z. find z s ≡ some n) (==→eq id y t) e),
          t,
        )
        (a q)
  | inr f ↦ rw f (handler_at-congr room' room y q s' s (h y ∙ rw f refl))
]

Adds-new :
    (oid : List ℕ) (room room' id callback : ℕ) (s s' : Subs) (n' : Node)
    → ((j : ℕ) → find j s' ≡ (if id == j then some n' else find j s))
    → find id s ≡ none
    → ((q : List ℕ) → handler_at n' q ≡ (if same_oid oid q then some callback else none))
    → Adds (id ∷ oid) callback (group_node room s) (group_node room' s')
unfolding same_oid
Adds-new oid room room' id callback s s' n' h e a [] = unfold handler_at in refl
Adds-new oid room room' id callback s s' n' h e a (y ∷ q) = elim (Bool-cases (id == y)) [
  | inl t ↦
      rw
        (
          handler_at_step room' y q s' n' (h y ∙ rw t refl),
          handler_at_miss room y q s (subst (λ z. find z s ≡ none) (==→eq id y t) e),
          t,
        )
        (a q)
  | inr f ↦ rw f (handler_at-congr room' room y q s' s (h y ∙ rw f refl))
]

instance_handler :
    (callback : ℕ) (q : List ℕ)
    → handler_at (instance_node callback) q ≡ (if same_oid [] q then some callback else none)
unfolding handler_at same_oid
instance_handler callback [] = refl
instance_handler callback (y ∷ q) = refl

empty_handler : (q : List ℕ) → handler_at mib_group_node_new q ≡ none
unfolding handler_at find mib_group_node_new
empty_handler [] = refl
empty_handler (y ∷ q) = refl

-- What a fresh group gains is all that it holds.
Adds-empty :
    (oid : List ℕ) (callback : ℕ) (n : Node)
    → Adds oid callback mib_group_node_new n
    → (q : List ℕ) → handler_at n q ≡ (if same_oid oid q then some callback else none)
Adds-empty oid callback n a q = a q ∙ rw (empty_handler q) refl

module _ (id : ℕ) (oid : List ℕ) (callback room : ℕ) (s : Subs) (tree : IsForest s) where
  insert_found :
      {i : ℕ} {n : Node}
      → AtFound s id (open_slot id s) i n
      → Ensures (Unit {0}) (Adds oid callback n) (mib_tree_instance_insert oid callback n)
      → Ensures
          (Unit {0})
          (Adds (id ∷ oid) callback (group_node room s))
          (graft (λ n'. group_node room (set_ptr i n' s)) (mib_tree_instance_insert oid callback n))
  insert_found {i} {n} at h =
      Ensures-graft (Unit {0}) _ (λ n'. group_node room (set_ptr i n' s)) _ h
        λ n' a.
          Adds-child oid room room id callback s (set_ptr i n' s) n n'
            (λ j. find-set_ptr s i id j n' (IsForest-Ascends s tree) at.inside at.at_index)
            at.in_spec a

  insert_vacant :
      {i : ℕ} (r : Inserted)
      → AtVacant s id (open_slot id s) i
      → Ensures
          (Unit {0})
          (λ n. (q : List ℕ) → handler_at n q ≡ (if same_oid oid q then some callback else none))
          r
      → Ensures
          (Unit {0})
          (Adds (id ∷ oid) callback (group_node room s))
          (within room s (graft (λ n. group_node (room_for room s) (put_sub i id n s)) r))
  insert_vacant {i} r at h = Ensures-within (Unit {0}) _ room s _ (inr tt) (
      Ensures-graft (Unit {0}) (Adds (id ∷ oid) callback (group_node room s))
        (λ n. group_node (room_for room s) (put_sub i id n s)) r h
        λ n' a.
          Adds-new oid room (room_for room s) id callback s (put_sub i id n' s) n'
            (λ j. find-put_sub s i id j n' at.inside at.below) at.in_spec a)

-- On any tree, where an insertion is not refused and does not crash exactly the handler at `oid` is new.
pub insert-Adds :
    (oid : List ℕ) (callback : ℕ) (node : Node)
    → IsTree node
    → Ensures (Unit {0}) (Adds oid callback node) (mib_tree_instance_insert oid callback node)
insert-Adds [] callback node h = unfold mib_tree_instance_insert in tt
insert-Adds (id ∷ oid) callback (instance_node c) h = unfold mib_tree_instance_insert in tt
insert-Adds (id ∷ []) callback (group_node room s) h = elim (open_slot_view id s h) [
  | inl (i, n, at) ↦ rw (insert_step id [] callback room s i n at.is_found) (
      insert_found id [] callback room s h at
        (insert-Adds [] callback n (find-IsTree s id n h at.in_spec)))
  | inr (i, at) ↦ rw (insert_last id callback room s i at.is_vacant) (
      insert_vacant id [] callback room s h (inserted (instance_node callback)) at
        (instance_handler callback))
]
insert-Adds (id ∷ x ∷ oid) callback (group_node room s) h = elim (open_slot_view id s h) [
  | inl (i, n, at) ↦ rw (insert_step id (x ∷ oid) callback room s i n at.is_found) (
      insert_found id (x ∷ oid) callback room s h at
        (insert-Adds (x ∷ oid) callback n (find-IsTree s id n h at.in_spec)))
  | inr (i, at) ↦ rw (insert_deeper id x oid callback room s i at.is_vacant) (
      insert_vacant id (x ∷ oid) callback room s h
        (mib_tree_instance_insert (x ∷ oid) callback mib_group_node_new) at
        (Ensures-mono (Unit {0}) _ _
          (mib_tree_instance_insert (x ∷ oid) callback mib_group_node_new)
          (Adds-empty (x ∷ oid) callback)
          (insert-Adds (x ∷ oid) callback mib_group_node_new (unfold mib_group_node_new in tt))))
]
