-- ===== src/Mib/Delete/Missing.antt =====
-- `mib_node_unreg` of core/mib_tree.c away from the nodes of the tree.
use smartsnmp.Base.{ℕ, ◌≡◌, inl, inr, refl, sym, ap, ◌∙◌}
use smartsnmp.Base.{List, [], ◌∷◌, ◌++◌, none, some}
use smartsnmp.Mib.Node.{Node, group_node, instance_node, Subs}
use smartsnmp.Mib.Node.Spec.{
  find, find-IsTree, node_at, node_at_step, handler_at, handler_at_step, handler_at_miss, IsTree,
}
use smartsnmp.Mib.Node.Slots.{slot_of_view}
use smartsnmp.Mib.Delete.{miss, under, mib_tree_node_search, mib_tree_delete, mib_node_unreg}
use smartsnmp.Mib.Delete.Steps.{search_step, search_miss, under_miss}

-- The root itself is never removed.
pub unreg_root : (fuel : ℕ) (root : Node) → mib_node_unreg fuel [] root ≡ some (root, [])
unfolding mib_node_unreg mib_tree_node_search mib_tree_delete
unreg_root fuel root = refl

-- One more sub-identifier behind a registered one, whatever it is, unregisters the same handler.
search_behind :
    (p : List ℕ) (x : ℕ) (node : Node) (c : ℕ)
    → IsTree node
    → handler_at node p ≡ some c
    → mib_tree_node_search (p ++ (x ∷ [])) node ≡ mib_tree_node_search p node
search_behind [] x (group_node room s) c h e = unfold handler_at in cc
search_behind [] x (instance_node k) c h e = unfold mib_tree_node_search in refl
search_behind (id ∷ p) x (instance_node k) c h e = unfold handler_at in cc
search_behind (id ∷ p) x (group_node room s) c h e = elim (slot_of_view id s h) [
  | inr (i, at) ↦ cc (e, handler_at_miss room id p s at.in_spec)
  | inl (i, n, at) ↦
      search_step id (p ++ (x ∷ [])) room s i n at.is_found
      ∙ ap (under i) (
          search_behind p x n c (find-IsTree s id n h at.in_spec)
            (sym (handler_at_step room id p s n at.in_spec) ∙ e))
      ∙ sym (search_step id p room s i n at.is_found)
]

pub unreg_behind :
    (fuel : ℕ) (p : List ℕ) (x : ℕ) (root : Node) (c : ℕ)
    → IsTree root
    → handler_at root p ≡ some c
    → mib_node_unreg fuel (p ++ (x ∷ [])) root ≡ mib_node_unreg fuel p root
unfolding mib_node_unreg
unreg_behind fuel p x root c tree e = rw (search_behind p x root c tree e) refl

-- `oid` is a registered object identifier with one sub-identifier behind it.
abbrev pub IsBehind : List ℕ → Node → Type 0
IsBehind oid node =
    (p : List ℕ) × (x : ℕ) × (c : ℕ) × (oid ≡ p ++ (x ∷ [])) × (handler_at node p ≡ some c)

IsBehind-step :
    (id room : ℕ) (oid : List ℕ) (s : Subs) (n : Node)
    → find id s ≡ some n
    → IsBehind oid n
    → IsBehind (id ∷ oid) (group_node room s)
IsBehind-step id room oid s n f (p, x, c, e, h) =
    (id ∷ p, x, c, ap (λ (t : List ℕ). id ∷ t) e, handler_at_step room id p s n f ∙ h)

search_none :
    (oid : List ℕ) (node : Node)
    → IsTree node
    → node_at node oid ≡ none
    → ¬ IsBehind oid node
    → mib_tree_node_search oid node ≡ miss
search_none [] node h e b = unfold node_at in cc
search_none (id ∷ []) (instance_node c) h e b =
    absurd (b ([], id, c, refl, unfold handler_at in refl))
search_none (id ∷ x ∷ oid) (instance_node c) h e b = unfold mib_tree_node_search in refl
search_none (id ∷ oid) (group_node room s) h e b = elim (slot_of_view id s h) [
  | inr (i, at) ↦ search_miss id oid room s i at.is_vacant
  | inl (i, n, at) ↦
      search_step id oid room s i n at.is_found
      ∙ ap (under i) (
          search_none oid n (find-IsTree s id n h at.in_spec)
            (sym (node_at_step room id oid s n at.in_spec) ∙ e)
            (λ z. b (IsBehind-step id room oid s n at.in_spec z)))
      ∙ under_miss i
]

-- Where there is no node at `oid`, and no handler at `oid` less its last sub-identifier, the tree is
-- left as it is and nothing is freed.
pub unreg_missing :
    (fuel : ℕ) (oid : List ℕ) (root : Node)
    → IsTree root
    → node_at root oid ≡ none
    → ¬ IsBehind oid root
    → mib_node_unreg fuel oid root ≡ some (root, [])
unfolding mib_node_unreg mib_tree_delete
unreg_missing fuel oid root h e b = rw (search_none oid root h e b) refl
