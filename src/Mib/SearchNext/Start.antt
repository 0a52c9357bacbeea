-- ===== src/Mib/SearchNext/Start.antt =====
-- Where `mib_tree_search_next` starts: the node at which the GET search of the view's own object
-- identifier ends.
use smartsnmp.Mib.Node.Spec.{find-IsTree}
use smartsnmp.Mib.Search.{of_reply}
use smartsnmp.Mib.Node.Slots.{slot_of_view}
use smartsnmp.Mib.Search.Get.{down_found, down_vacant}
use smartsnmp.Base.{refl}
use smartsnmp.Base.{◌∙◌}
use smartsnmp.Base.{sym}
use smartsnmp.Mib.Node.Spec.{node_at_step}
use smartsnmp.Base.{ap}
use smartsnmp.Base.{none}
use smartsnmp.Base.{◌∷◌}
use smartsnmp.Mib.Node.{instance_node}
use smartsnmp.Mib.Node.{group_node}
use smartsnmp.Base.{[]}
use smartsnmp.Mib.Search.{search_down}
use smartsnmp.Base.{subst}
use smartsnmp.Mib.Search.{req_val}
use Prim.Native.Nat.{max}
use smartsnmp.Base.{ℕ, ◌≡◌, ◌≤◌, arith, inl, inr, some}
use smartsnmp.Base.{List, ◌++◌, Option-cases, Bool-cases, ◌==◌}
use smartsnmp.Mib.Node.{Node, Subs, nil, cons}
use smartsnmp.Mib.Node.Spec.{IsTree, find, node_at}
use smartsnmp.Mib.Search.{Lua, Variable, SearchRes, Instance, mib_instance_search}
use smartsnmp.Mib.Delete.Walk.{height, height_subs}

-- Nothing is left, or the node is an instance, or a group without the next child.
abbrev pub Stuck : Node → List ℕ → Type 0
Stuck node [] = Unit {0}
Stuck (instance_node c) (x ∷ rest) = Unit {0}
Stuck (group_node room s) (x ∷ rest) = find x s ≡ none

-- The search of `oid` ended at `node`, with `rest` left.
pub record Stop (root : Node) (oid : List ℕ) (r : SearchRes) : Type 0 where
  pub path : List ℕ
  pub rest : List ℕ
  pub node : Node
  pub split : oid ≡ path ++ rest
  pub at : node_at root path ≡ some node
  pub res : r.node ≡ some node
  pub left : r.inst_id ≡ rest
  pub tree : IsTree node
  pub low : height node ≤ height root
  pub ends : Stuck node rest

find-height : (s : Subs) (id : ℕ) (n : Node) → find id s ≡ some n → height n ≤ height_subs s
unfolding find height_subs
find-height nil id n e = cc
find-height (cons k m s) id n e = elim (Bool-cases (k == id)) [
  | inl t ↦
      (let p : some m ≡ some n = rw t at e in
        let q : m ≡ n = cc in
        let l : height m ≤ max (height m) (height_subs s) = omega arith in
        subst (λ x. height x ≤ max (height m) (height_subs s)) q l)
  | inr f ↦ (let l = find-height s id n (rw f at e) in omega (arith, l))
]

-- A search that is not GETNEXT leaves what it was asked for.
same_inst_id :
    (lua_pcall : Lua) (c : ℕ) (var : Variable) (inst_id : List ℕ) (i : Instance)
    → mib_instance_search lua_pcall c 0xa0 var inst_id ≡ some i
    → i.inst_id ≡ inst_id
unfolding mib_instance_search
same_inst_id lua_pcall c var inst_id i e =
    elim (Option-cases (lua_pcall c 0xa0 inst_id (req_val 0xa0 var))) [
      | inl n ↦ (let e' = rw (mib_instance_search, n) at e in ground arith)
      | inr (r, n) ↦ (let e' = rw (mib_instance_search, n) at e in ground arith)
    ]

-- The search ended where it began.
Stop-here :
    (n : Node) (oid : List ℕ) (r s : SearchRes)
    → IsTree n
    → s.node ≡ some n
    → s.inst_id ≡ oid
    → Stuck n oid
    → some s ≡ some r
    → Stop n oid r
unfolding node_at
Stop-here n oid r s h e f u q =
    let p : s ≡ r = cc in
    subst (Stop n oid) p record {
      path = [];
      rest = oid;
      node = n;
      split = refl;
      at = refl;
      res = e;
      left = f;
      tree = h;
      low = omega arith;
      ends = u;
    }

-- One step above.
Stop-below :
    (room id : ℕ) (s : Subs) (n : Node) (oid : List ℕ) (r : SearchRes)
    → find id s ≡ some n
    → Stop n oid r
    → Stop (group_node room s) (id ∷ oid) r
unfolding height
Stop-below room id s n oid r e t = record {
  path = id ∷ t.path;
  rest = t.rest;
  node = t.node;
  split = ap (λ (z : List ℕ). id ∷ z) t.split;
  at = node_at_step room id t.path s n e ∙ t.at;
  res = t.res;
  left = t.left;
  tree = t.tree;
  low = omega (arith, t.low, find-height s id n e);
  ends = t.ends;
}

pub search_down-Stop :
    (lua_pcall : Lua) (var : Variable) (oid : List ℕ) (root : Node) (r : SearchRes)
    → IsTree root
    → search_down lua_pcall 0xa0 var oid root ≡ some r
    → Stop root oid r
unfolding search_down of_reply
search_down-Stop lua_pcall var [] (instance_node c) r h e =
    Stop-here (instance_node c) [] r _ h refl refl tt e
search_down-Stop lua_pcall var [] (group_node room s) r h e =
    Stop-here (group_node room s) [] r _ h refl refl tt e
search_down-Stop lua_pcall var (id ∷ oid) (instance_node c) r h e =
    elim (Option-cases (mib_instance_search lua_pcall c 0xa0 var (id ∷ oid))) [
      | inl f ↦ (let q : none ≡ some r = sym (ap (of_reply (instance_node c)) f) ∙ e in cc)
      | inr (i, f) ↦
          Stop-here (instance_node c) (id ∷ oid) r _ h refl
            (same_inst_id lua_pcall c var (id ∷ oid) i f) tt
            (sym (ap (of_reply (instance_node c)) f) ∙ e)
    ]
search_down-Stop lua_pcall var (id ∷ oid) (group_node room s) r h e = elim (slot_of_view id s h) [
  | inl (i, n, at) ↦ Stop-below room id s n oid r at.in_spec (
      search_down-Stop lua_pcall var oid n r (find-IsTree s id n h at.in_spec)
        (sym (down_found lua_pcall 0xa0 var id oid room s i n at.is_found) ∙ e))
  | inr (i, at) ↦
      Stop-here (group_node room s) (id ∷ oid) r _ h refl refl at.in_spec
        (sym (down_vacant lua_pcall 0xa0 var id oid room s i at.is_vacant) ∙ e)
]
