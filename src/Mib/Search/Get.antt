-- ===== src/Mib/Search/Get.antt =====
-- What GET asks and answers, `mib_tree_search` of core/mib_tree.c against the handlers of the tree.
use mathlib.Core.List.{append-nil}
use smartsnmp.View.Covering.{above, below, apart, covering}
use smartsnmp.Base.{
  ℕ, List, [], ◌∷◌, ◌++◌, ◌≡◌, ◌∙◌, inl, inr, refl, sym, ap, Bool-cases, none, some,
}
use smartsnmp.Base.Int.{pos, is_pos}
use smartsnmp.Oid.{oid_cover}
use smartsnmp.Oid.Compare.{IsOid}
use smartsnmp.Oid.Cover.{Covers, oid_cover_iff}
use smartsnmp.Mib.Node.{Node, group_node, instance_node, Subs, found, vacant, slot_of}
use smartsnmp.Mib.Node.Spec.{find-IsTree, handler_at, handler_at_step, handler_at_miss, IsTree}
use smartsnmp.Mib.Node.Slots.{slot_of_view}
use smartsnmp.Mib.Search.{
  Lua, Variable, retag, SearchRes, mib_instance_search, of_reply, search_down, mib_tree_search,
}

module _ (lua_pcall : Lua) (request : ℕ) (var : Variable) where
  pub down_found :
      (id : ℕ) (oid : List ℕ) (room : ℕ) (s : Subs) (i : ℕ) (n : Node)
      → slot_of id s ≡ found i n
      → search_down lua_pcall request var (id ∷ oid) (group_node room s)
        ≡ search_down lua_pcall request var oid n
  unfolding search_down
  down_found id oid room s i n e = rw (search_down, e) refl

  pub down_vacant :
      (id : ℕ) (oid : List ℕ) (room : ℕ) (s : Subs) (i : ℕ)
      → slot_of id s ≡ vacant i
      → search_down lua_pcall request var (id ∷ oid) (group_node room s)
        ≡ some record {
          node = some (group_node room s);
          inst_id = id ∷ oid;
          err_stat = pos 0;
          var = retag 0x80 var;
        }
  unfolding search_down
  down_vacant id oid room s i e = rw (search_down, e) refl

  -- Below a handler the search gives what it gives at its node.
  down_at :
      (p q : List ℕ) (node : Node) (c : ℕ)
      → IsTree node
      → handler_at node p ≡ some c
      → search_down lua_pcall request var (p ++ q) node
        ≡ search_down lua_pcall request var q (instance_node c)
  down_at [] q (instance_node k) c h e =
      let s : some k ≡ some c = unfold handler_at in e in let t : k ≡ c = cc in rw t refl
  down_at [] q (group_node room s) c h e = unfold handler_at in cc
  down_at (id ∷ p) q (instance_node k) c h e = unfold handler_at in cc
  down_at (id ∷ p) q (group_node room s) c h e = elim (slot_of_view id s h) [
    | inr (i, at) ↦ cc (e, handler_at_miss room id p s at.in_spec)
    | inl (i, n, at) ↦
        down_found id (p ++ q) room s i n at.is_found
        ∙ down_at p q n c (find-IsTree s id n h at.in_spec)
            (sym (handler_at_step room id p s n at.in_spec) ∙ e)
  ]

  pub in_view :
      (view oid : List ℕ) (root : Node)
      → IsOid view
      → IsOid oid
      → Covers view oid
      → mib_tree_search lua_pcall request var view oid root
        ≡ search_down lua_pcall request var oid root
  unfolding mib_tree_search
  in_view view oid root hv ho c = rw ((oid_cover_iff view oid hv ho).0.1 c) refl

  -- On a sorted tree and in the view, for an object identifier behind that of a registered handler, GET gives what exactly this
  -- handler replies to the rest of the object identifier.
  pub search_below :
      (view p : List ℕ) (x : ℕ) (q : List ℕ) (root : Node) (c : ℕ)
      → IsOid view
      → IsOid (p ++ (x ∷ q))
      → Covers view (p ++ (x ∷ q))
      → IsTree root
      → handler_at root p ≡ some c
      → mib_tree_search lua_pcall request var view (p ++ (x ∷ q)) root
        ≡ of_reply (instance_node c) (mib_instance_search lua_pcall c request var (x ∷ q))
  search_below view p x q root c hv ho cover h e =
      in_view view (p ++ (x ∷ q)) root hv ho cover
      ∙ down_at p (x ∷ q) root c h e
      ∙ (unfold search_down in refl)

-- No handler at a prefix of `oid`.
abbrev pub Unclaimed : List ℕ → Node → Type 0
Unclaimed oid node = (p q : List ℕ) → oid ≡ p ++ q → handler_at node p ≡ none

-- The answer is NO_SUCH_OBJ, and whatever the handlers do it is the same.
abbrev pub Absent : ℕ → Variable → List ℕ → Node → Type 0
Absent request var oid node =
    (r : SearchRes) × (r.var.tag ≡ 0x80)
    × (r.err_stat ≡ pos 0)
    × ((lua_pcall : Lua) → search_down lua_pcall request var oid node ≡ some r)

down-Absent :
    (request : ℕ) (var : Variable) (oid : List ℕ) (node : Node)
    → IsTree node
    → Unclaimed oid node
    → Absent request var oid node
down-Absent request var [] (group_node room s) h u = (
  record { node = some (group_node room s); inst_id = []; err_stat = pos 0; var = retag 0x80 var },
  refl,
  refl,
  λ lua_pcall. unfold search_down in refl,
)
down-Absent request var oid (instance_node c) h u =
    let e : none ≡ some c = sym (u [] oid refl) ∙ (unfold handler_at in refl) in cc
down-Absent request var (id ∷ oid) (group_node room s) h u = elim (slot_of_view id s h) [
  | inr (i, at) ↦
      (_, refl, refl, λ lua_pcall. down_vacant lua_pcall request var id oid room s i at.is_vacant)
  | inl (i, n, at) ↦
      let (r, t, e, all) = down-Absent request var oid n (find-IsTree s id n h at.in_spec) (λ p q x.
        sym (handler_at_step room id p s n at.in_spec)
        ∙ u (id ∷ p) q (ap (λ (z : List ℕ). id ∷ z) x)) in
      (
        r,
        t,
        e,
        λ lua_pcall. down_found lua_pcall request var id oid room s i n at.is_found ∙ all lua_pcall,
      )
]

-- If no handler of a sorted tree stands at a prefix of the object identifier, GET answers NO_SUCH_OBJ with no error, in
-- the view or not, and the answer depends on no handler.
pub search-Absent :
    (request : ℕ) (var : Variable) (view oid : List ℕ) (root : Node)
    → IsTree root
    → Unclaimed oid root
    → (r : SearchRes) × (r.var.tag ≡ 0x80)
      × (r.err_stat ≡ pos 0)
      × ((lua_pcall : Lua) → mib_tree_search lua_pcall request var view oid root ≡ some r)
unfolding mib_tree_search
search-Absent request var view oid root h u = elim (Bool-cases (is_pos (oid_cover view oid))) [
  | inl e ↦
      let (r, t, s, all) = down-Absent request var oid root h u in
      (r, t, s, λ lua_pcall. rw (mib_tree_search, e) (all lua_pcall))
  | inr e ↦ (
    record { node = none; inst_id = []; err_stat = pos 0; var = retag 0x80 var },
    refl,
    refl,
    λ lua_pcall. rw (mib_tree_search, e) refl,
  )
]

-- Out of the view GET answers NO_SUCH_OBJ without a node, whatever the tree and the handlers are.
pub search_outside :
    (request : ℕ) (var : Variable) (view oid : List ℕ) (root : Node) (lua_pcall : Lua)
    → IsOid view
    → IsOid oid
    → (¬ Covers view oid)
    → mib_tree_search lua_pcall request var view oid root
      ≡ some record { node = none; inst_id = []; err_stat = pos 0; var = retag 0x80 var }
unfolding mib_tree_search
search_outside request var view oid root lua_pcall hv ho n = elim (covering view oid hv ho) [
  | above c e ↦ absurd (n c)
  | below c m e ↦ rw (mib_tree_search, e) refl
  | apart m k e ↦ rw (mib_tree_search, e) refl
]

-- On a sorted tree and in the view, at the object identifier of a handler itself, GET answers NO_SUCH_INST and does not ask it.
pub search_exact :
    (request : ℕ) (var : Variable) (view p : List ℕ) (root : Node) (c : ℕ) (lua_pcall : Lua)
    → IsOid view
    → IsOid p
    → Covers view p
    → IsTree root
    → handler_at root p ≡ some c
    → mib_tree_search lua_pcall request var view p root
      ≡ some record {
        node = some (instance_node c);
        inst_id = [];
        err_stat = pos 0;
        var = retag 0x81 var;
      }
search_exact request var view p root c lua_pcall hv ho cover h e =
    in_view lua_pcall request var view p root hv ho cover
    ∙ ap (λ z. search_down lua_pcall request var z root) (sym (append-nil p))
    ∙ down_at lua_pcall request var p [] root c h e
    ∙ (unfold search_down in refl)
