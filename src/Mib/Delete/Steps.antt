-- ===== src/Mib/Delete/Steps.antt =====
-- `mib_tree_node_search` of core/mib_tree.c, a round at a time.
use smartsnmp.Base.{ℕ, ◌≡◌, refl, List, ◌∷◌}
use smartsnmp.Mib.Node.{Node, group_node, Subs, found, vacant, slot_of}
use smartsnmp.Mib.Delete.{miss, hit, under, mib_tree_node_search}

pub search_step :
    (id : ℕ) (oid : List ℕ) (room : ℕ) (s : Subs) (i : ℕ) (n : Node)
    → slot_of id s ≡ found i n
    → mib_tree_node_search (id ∷ oid) (group_node room s) ≡ under i (mib_tree_node_search oid n)
unfolding mib_tree_node_search
search_step id oid room s i n e = rw (mib_tree_node_search, e) refl

pub search_miss :
    (id : ℕ) (oid : List ℕ) (room : ℕ) (s : Subs) (i : ℕ)
    → slot_of id s ≡ vacant i
    → mib_tree_node_search (id ∷ oid) (group_node room s) ≡ miss
unfolding mib_tree_node_search
search_miss id oid room s i e = rw (mib_tree_node_search, e) refl

pub under-hit : (i : ℕ) (path : List ℕ) (n : Node) → under i (hit path n) ≡ hit (i ∷ path) n
unfolding under
under-hit i path n = refl

pub under_miss : (i : ℕ) → under i miss ≡ miss
unfolding under
under_miss i = refl
