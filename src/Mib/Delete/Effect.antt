-- ===== src/Mib/Delete/Effect.antt =====
-- What `mib_node_unreg` removes from the tree.
use smartsnmp.Base.{ℕ, zero, suc, ◌+◌, ◌≡◌, ◌≤◌, inl, inr, refl, sym, subst, ◌∙◌}
use smartsnmp.Base.{List, [], ◌∷◌, none, some, ◌==◌, ==→eq, if◌then◌else◌, Bool-cases}
use smartsnmp.Mib.Node.{
  Node, group_node, instance_node, Subs, nil, cons, sub_ids, sub_ptr, slot_of, set_ptr,
  group_node_shrink,
}
use smartsnmp.Mib.Node.Spec.{
  find, find-IsTree, node_at, node_at_step, node_at_miss, handler_at, handler_at_step,
  handler_at_miss, handler_at-congr, covers, IsTree, IsForest,
}
use smartsnmp.Mib.Node.Arrays.{find-shrink, find-set_ptr, All-shrink}
use smartsnmp.Mib.Node.Slots.{AtFound, slot_of_view, IsForest-Ascends}
use smartsnmp.Mib.Insert.Keeps.{IsForest-set_ptr}
use smartsnmp.Mib.Delete.{
  hit, under, mib_tree_node_search, shrink_at, mib_tree_delete, mib_node_unreg,
}
use smartsnmp.Mib.Delete.Steps.{search_step, under-hit}
use smartsnmp.Mib.Delete.Walk.{events, rounds, height}
use smartsnmp.Mib.Delete.Free.{free_loop-events}

search_last : (i : ℕ) (c n : Node) → c ≡ n → under i (mib_tree_node_search [] c) ≡ hit (i ∷ []) n
unfolding under mib_tree_node_search
search_last i c n e = rw e refl

last_node :
    (id room : ℕ) (s : Subs) (c n : Node)
    → find id s ≡ some c
    → node_at (group_node room s) (id ∷ []) ≡ some n
    → c ≡ n
last_node id room s c n f e =
    let p : some c ≡ some n = sym (node_at_step room id [] s c f ∙ (unfold node_at in refl)) ∙ e in
    cc

shrink_step :
    (i j room : ℕ) (path : List ℕ) (s : Subs) (n : Node)
    → sub_ptr s i ≡ some n
    → shrink_at (i ∷ j ∷ path) (group_node room s)
      ≡ group_node room (set_ptr i (shrink_at (j ∷ path) n) s)
unfolding shrink_at
shrink_step i j room path s n e = rw (shrink_at, e) refl

IsForest-shrink : (i : ℕ) (s : Subs) → IsForest s → IsForest (group_node_shrink i s)
unfolding group_node_shrink sub_ids
IsForest-shrink i nil h = tt
IsForest-shrink i (cons k n nil) h = tt
IsForest-shrink zero (cons k n (cons k' n' s)) h = h.2
IsForest-shrink (suc i) (cons k n (cons k' n' s)) h =
    (All-shrink k (cons k' n' s) i h.0, h.1, IsForest-shrink i (cons k' n' s) h.2)

-- Exactly the handlers at `oid` and below are gone.
abbrev pub Removes : List ℕ → Node → Node → Type 0
Removes oid node node' =
    (q : List ℕ) → handler_at node' q ≡ (if covers oid q then none else handler_at node q)

Removes-last :
    (id room i : ℕ) (s : Subs) (n : Node)
    → IsForest s
    → AtFound s id (slot_of id s) i n
    → Removes (id ∷ []) (group_node room s) (group_node room (group_node_shrink i s))
unfolding covers
Removes-last id room i s n h at [] = unfold handler_at in refl
Removes-last id room i s n h at (y ∷ q) = elim (Bool-cases (id == y)) [
  | inl t ↦ rw t (handler_at_miss room y q (group_node_shrink i s) (shrunk y ∙ rw t refl))
  | inr f ↦ rw f (handler_at-congr room room y q (group_node_shrink i s) s (shrunk y ∙ rw f refl))
]
  where
    shrunk : (j : ℕ) → find j (group_node_shrink i s) ≡ (if id == j then none else find j s)
    shrunk j = find-shrink s i id j (IsForest-Ascends s h) at.inside at.at_index

Removes-child :
    (id room i : ℕ) (oid : List ℕ) (s : Subs) (n n' : Node)
    → IsForest s
    → AtFound s id (slot_of id s) i n
    → Removes oid n n'
    → Removes (id ∷ oid) (group_node room s) (group_node room (set_ptr i n' s))
unfolding covers
Removes-child id room i oid s n n' h at r [] = unfold handler_at in refl
Removes-child id room i oid s n n' h at r (y ∷ q) = elim (Bool-cases (id == y)) [
  | inl t ↦
      rw
        (
          handler_at_step room y q (set_ptr i n' s) n' (changed y ∙ rw t refl),
          handler_at_step room y q s n (subst (λ z. find z s ≡ some n) (==→eq id y t) at.in_spec),
          t,
        )
        (r q)
  | inr f ↦ rw f (handler_at-congr room room y q (set_ptr i n' s) s (changed y ∙ rw f refl))
]
  where
    changed : (j : ℕ) → find j (set_ptr i n' s) ≡ (if id == j then some n' else find j s)
    changed j = find-set_ptr s i id j n' (IsForest-Ascends s h) at.inside at.at_index

-- The search finds the node of the specification, and the removal at its place takes it out.
record Found (oid : List ℕ) (node n : Node) (i : ℕ) (path : List ℕ) : Type 0 where
  search : mib_tree_node_search oid node ≡ hit (i ∷ path) n
  tree : IsTree (shrink_at (i ∷ path) node)
  removes : Removes oid node (shrink_at (i ∷ path) node)

find_removes :
    (id : ℕ) (oid : List ℕ) (node n : Node)
    → IsTree node
    → node_at node (id ∷ oid) ≡ some n
    → (i : ℕ) × (path : List ℕ) × Found (id ∷ oid) node n i path
find_removes id oid (instance_node c) n h e = unfold node_at in cc
find_removes id [] (group_node room s) n h e = elim (slot_of_view id s h) [
  | inr (i, at) ↦ cc (e, node_at_miss room id [] s at.in_spec)
  | inl (i, c, at) ↦ (
    i,
    [],
    record {
      search =
          search_step id [] room s i c at.is_found
          ∙ search_last i c n (last_node id room s c n at.in_spec e);
      tree = unfold shrink_at in IsForest-shrink i s h;
      removes = unfold shrink_at in Removes-last id room i s c h at;
    },
  )
]
find_removes id (x ∷ oid) (group_node room s) n h e = elim (slot_of_view id s h) [
  | inr (i, at) ↦ cc (e, node_at_miss room id (x ∷ oid) s at.in_spec)
  | inl (i, c, at) ↦
      (let (j, path, f) =
          find_removes x oid c n (find-IsTree s id c h at.in_spec)
            (sym (node_at_step room id (x ∷ oid) s c at.in_spec) ∙ e) in
        (
          i,
          j ∷ path,
          record {
            search =
                search_step id (x ∷ oid) room s i c at.is_found
                ∙ rw f.search (under-hit i (j ∷ path) n);
            tree = rw (shrink_step i j room path s c at.at_ptr) (IsForest-set_ptr i s _ h f.tree);
            removes =
                rw (shrink_step i j room path s c at.at_ptr)
                  (Removes-child id room i (x ∷ oid) s c (shrink_at (j ∷ path) c) h at f.removes);
          },
        ))
]

-- Unregistering an object identifier that leads to a node removes exactly the handlers at it and
-- below it, keeps every group sorted, and has unreferenced each handler below the node once.
pub unreg-Removes :
    (id : ℕ) (oid : List ℕ) (root n : Node) (extra : ℕ)
    → IsTree root
    → node_at root (id ∷ oid) ≡ some n
    → height n ≤ 64
    → (root' : Node) × (mib_node_unreg (rounds n + extra) (id ∷ oid) root ≡ some (root', events n))
      × IsTree root'
      × Removes (id ∷ oid) root root'
unfolding mib_node_unreg mib_tree_delete
unreg-Removes id oid root n extra tree e h =
    let (i, path, f) = find_removes id oid root n tree e in
    (
      shrink_at (i ∷ path) root,
      rw (f.search, mib_tree_delete, free_loop-events n extra h) refl,
      f.tree,
      f.removes,
    )
