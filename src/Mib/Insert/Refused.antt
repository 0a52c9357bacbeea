-- ===== src/Mib/Insert/Refused.antt =====
-- When an insertion is refused: exactly if the object identifier overlaps with what is registered.
use smartsnmp.Mib.Insert.{room_for}
use smartsnmp.Mib.Insert.{sub_id_cnt}
use smartsnmp.Base.{ltb}
use smartsnmp.Base.{Bool-cases}
use smartsnmp.Mib.Insert.{within}
use mathlib.Core.List.{◌++◌}
use smartsnmp.Base.{ℕ, ◌≡◌, ◌≢◌, ◌⊎◌, ◌↔◌, Bool, true, false, inl, inr, refl, sym, subst, ◌∙◌, ap}
use smartsnmp.Base.{List, [], ◌∷◌, Option, none, some}
use smartsnmp.Mib.Node.{Node, group_node, instance_node, Subs, mib_group_node_new}
use smartsnmp.Mib.Node.Spec.{
  find, find-IsTree, node_at, handler_at, node_at_step, node_at_miss, handler_at_step,
  handler_at_miss, IsTree,
}
use smartsnmp.Mib.Insert.{Inserted, inserted, refused, fault, graft, mib_tree_instance_insert}
use smartsnmp.Mib.Insert.Steps.{open_slot_view, insert_step, insert_last, insert_deeper}

-- There is a node at `oid`, or a handler at `oid` or at a prefix of it.
abbrev pub Overlaps : Node → List ℕ → Type 0
Overlaps node oid =
    (node_at node oid ≢ none)
    ⊎ ((p : List ℕ) × (q : List ℕ) × (c : ℕ) × (oid ≡ p ++ q) × (handler_at node p ≡ some c))

unfoldable blocked : Node → List ℕ → Bool
blocked node [] = true
blocked (instance_node c) (x ∷ oid) = true
blocked (group_node room s) (x ∷ oid) = elim (find x s) [ none ↦ false | some n ↦ blocked n oid ]

blocked_step :
    (room x : ℕ) (oid : List ℕ) (s : Subs) (n : Node)
    → find x s ≡ some n
    → blocked (group_node room s) (x ∷ oid) ≡ blocked n oid
unfolding blocked
blocked_step room x oid s n e = rw (blocked, e) refl

blocked_miss :
    (room x : ℕ) (oid : List ℕ) (s : Subs)
    → find x s ≡ none
    → blocked (group_node room s) (x ∷ oid) ≡ false
unfolding blocked
blocked_miss room x oid s e = rw (blocked, e) refl

is_refused : Inserted → Bool
is_refused refused = true
is_refused (inserted n) = false
is_refused fault = false

is_refused-graft : (f : Node → Node) (r : Inserted) → is_refused (graft f r) ≡ is_refused r
unfolding is_refused graft
is_refused-graft f (inserted n) = refl
is_refused-graft f refused = refl
is_refused-graft f fault = refl

is_refused-within :
    (room : ℕ) (s : Subs) (r : Inserted)
    → is_refused r ≡ false
    → is_refused (within room s r) ≡ false
unfolding is_refused within
is_refused-within room s r h = elim (Bool-cases (ltb (sub_id_cnt s) (room_for room s))) [
  | inl t ↦ rw (within, t) h
  | inr t ↦ rw (within, t) refl
]

refused-blocked :
    (oid : List ℕ) (callback : ℕ) (node : Node)
    → IsTree node
    → is_refused (mib_tree_instance_insert oid callback node) ≡ blocked node oid
refused-blocked [] callback node h = unfold mib_tree_instance_insert blocked is_refused in refl
refused-blocked (id ∷ oid) callback (instance_node c) h =
    unfold mib_tree_instance_insert blocked is_refused in refl
refused-blocked (id ∷ []) callback (group_node room s) h = elim (open_slot_view id s h) [
  | inl (i, n, at) ↦
      rw
        (
          insert_step id [] callback room s i n at.is_found,
          is_refused-graft,
          blocked_step room id [] s n at.in_spec,
        )
        (refused-blocked [] callback n (find-IsTree s id n h at.in_spec))
  | inr (i, at) ↦
      rw (insert_last id callback room s i at.is_vacant, blocked_miss room id [] s at.in_spec)
        (is_refused-within room s _ (rw is_refused-graft (unfold is_refused in refl)))
]
refused-blocked (id ∷ x ∷ oid) callback (group_node room s) h = elim (open_slot_view id s h) [
  | inl (i, n, at) ↦
      rw
        (
          insert_step id (x ∷ oid) callback room s i n at.is_found,
          is_refused-graft,
          blocked_step room id (x ∷ oid) s n at.in_spec,
        )
        (refused-blocked (x ∷ oid) callback n (find-IsTree s id n h at.in_spec))
  | inr (i, at) ↦
      rw
        (
          insert_deeper id x oid callback room s i at.is_vacant,
          blocked_miss room id (x ∷ oid) s at.in_spec,
        )
        (is_refused-within room s _ (
          is_refused-graft _ (mib_tree_instance_insert (x ∷ oid) callback mib_group_node_new)
          ∙ refused-blocked (x ∷ oid) callback mib_group_node_new (unfold mib_group_node_new in tt)
          ∙ (unfold mib_group_node_new blocked find in refl)))
]

Option-cases : (o : Option Node) → (o ≡ none) ⊎ ((n : Node) × (o ≡ some n))
Option-cases none = inl refl
Option-cases (some n) = inr (n, refl)

Overlaps-step :
    (room x : ℕ) (oid : List ℕ) (s : Subs) (n : Node)
    → find x s ≡ some n
    → Overlaps n oid
    → Overlaps (group_node room s) (x ∷ oid)
Overlaps-step room x oid s n f (inl ne) = inl (λ e. ne (sym (node_at_step room x oid s n f) ∙ e))
Overlaps-step room x oid s n f (inr (p, q, c, e, h)) =
    inr (x ∷ p, q, c, ap (λ (t : List ℕ). x ∷ t) e, handler_at_step room x p s n f ∙ h)

-- An overlap in a group is one in the child on the way.
Overlaps-child :
    (room x : ℕ) (oid : List ℕ) (s : Subs) (n : Node)
    → find x s ≡ some n
    → Overlaps (group_node room s) (x ∷ oid)
    → Overlaps n oid
Overlaps-child room x oid s n f (inl ne) = inl (λ e. ne (node_at_step room x oid s n f ∙ e))
Overlaps-child room x oid s n f (inr ([], q, c, e, h)) = unfold handler_at in cc
Overlaps-child room x oid s n f (inr (y ∷ p, q, c, e, h)) =
    let same : x ≡ y = cc in
    let rest : oid ≡ p ++ q = cc in
    inr (
      p,
      q,
      c,
      rest,
      sym (handler_at_step room y p s n (subst (λ z. find z s ≡ some n) same f)) ∙ h,
    )

-- Where the sub-identifier is missing there is none.
Overlaps-miss :
    (room x : ℕ) (oid : List ℕ) (s : Subs)
    → find x s ≡ none
    → ¬ Overlaps (group_node room s) (x ∷ oid)
Overlaps-miss room x oid s f (inl ne) = ne (node_at_miss room x oid s f)
Overlaps-miss room x oid s f (inr ([], q, c, e, h)) = unfold handler_at in cc
Overlaps-miss room x oid s f (inr (y ∷ p, q, c, e, h)) =
    let same : x ≡ y = cc in
    cc (h, handler_at_miss room y p s (subst (λ z. find z s ≡ none) same f))

blocked→Overlaps : (node : Node) (oid : List ℕ) → blocked node oid ≡ true → Overlaps node oid
blocked→Overlaps node [] h = inl (unfold node_at in (λ e. cc))
blocked→Overlaps (instance_node c) (x ∷ oid) h =
    inr ([], x ∷ oid, c, refl, unfold handler_at in refl)
blocked→Overlaps (group_node room s) (x ∷ oid) h = elim (Option-cases (find x s)) [
  | inl e ↦ cc (h, blocked_miss room x oid s e)
  | inr (n, e) ↦
      Overlaps-step room x oid s n e
        (blocked→Overlaps n oid (sym (blocked_step room x oid s n e) ∙ h))
]

Overlaps→blocked : (node : Node) (oid : List ℕ) → Overlaps node oid → blocked node oid ≡ true
Overlaps→blocked node [] h = unfold blocked in refl
Overlaps→blocked (instance_node c) (x ∷ oid) h = unfold blocked in refl
Overlaps→blocked (group_node room s) (x ∷ oid) h = elim (Option-cases (find x s)) [
  | inl e ↦ absurd (Overlaps-miss room x oid s e h)
  | inr (n, e) ↦
      blocked_step room x oid s n e ∙ Overlaps→blocked n oid (Overlaps-child room x oid s n e h)
]

refused→eq : (r : Inserted) → is_refused r ≡ true → r ≡ refused
unfolding is_refused
refused→eq (inserted n) h = cc
refused→eq refused h = refl
refused→eq fault h = cc

-- On a tree an insertion is refused exactly on an overlap.
pub refused_iff :
    (oid : List ℕ) (callback : ℕ) (node : Node)
    → IsTree node
    → (mib_tree_instance_insert oid callback node ≡ refused) ↔ Overlaps node oid
refused_iff oid callback node h = (
  λ e.
      blocked→Overlaps node oid
        (sym (refused-blocked oid callback node h) ∙ rw e (unfold is_refused in refl)),
  λ o. refused→eq _ (refused-blocked oid callback node h ∙ Overlaps→blocked node oid o),
)
