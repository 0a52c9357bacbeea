-- ===== src/Mib/SearchNext/Refines.antt =====
-- `mib_tree_search_next` against the calls of the subtree at the view: in the view, ahead of it and behind.
use smartsnmp.Mib.SearchNext.{failed}
use smartsnmp.View.Covering.{apart}
use smartsnmp.Oid.Compare.{LexLt-asym}
use smartsnmp.View.Covering.{below}
use smartsnmp.Oid.Compare.{oid_cmp_order}
use smartsnmp.Base.{◌||◌}
use smartsnmp.Base.{Bool-cases}
use smartsnmp.View.Covering.{above}
use smartsnmp.View.Covering.{covering}
use smartsnmp.Oid.Compare.{IsSmall-IsOid}
use smartsnmp.Mib.SearchNext.{next_at}
use smartsnmp.Base.{subst}
use smartsnmp.Mib.SearchNext.{mode_in}
use smartsnmp.Base.{length-append}
use smartsnmp.Oid.Cover.{Covers-append}
use mathlib.Core.List.{append-nil, append_assoc}
use native.Mathlib.Nat.{add-zero}
use smartsnmp.Base.{
  ℕ, ◌+◌, ◌-◌, ◌≡◌, ◌≤◌, ◌∙◌, refl, sym, ap, arith, inl, inr, none, some, true, false,
}
use smartsnmp.Base.{List, [], ◌∷◌, ◌++◌, ltb, length, reverse, lt→ltb}
use smartsnmp.Base.ListLaws.{drop-append, take-append}
use smartsnmp.Base.Int.{is_pos, is_neg}
use smartsnmp.Oid.{oid_cmp, oid_cover}
use smartsnmp.Oid.Compare.{IsOid, IsSmall, LexLt}
use smartsnmp.Oid.Cover.{Covers, oid_cover_iff, Covers-suffix}
use smartsnmp.View.Covering.{Covers-refl}
use smartsnmp.Mib.Node.{Node, group_node, instance_node}
use smartsnmp.Mib.Node.Spec.{IsTree, node_at}
use smartsnmp.Mib.Search.{Lua, Variable, SearchRes, mib_tree_search}
use smartsnmp.Mib.Search.Get.{in_view}
use smartsnmp.Mib.Delete.Walk.{rounds, height}
use smartsnmp.Mib.SearchNext.{
  next, Mode, end_of_view, settle, start_mode, next_loop, next_from, mib_tree_search_next,
}
use smartsnmp.Mib.SearchNext.Calls.{Call, all_calls, calls_from, answer}
use smartsnmp.Mib.SearchNext.Visit.{visit_node, backtrack}
use smartsnmp.Mib.SearchNext.Resume.{next_loop-calls}
use smartsnmp.Mib.SearchNext.Start.{Stop, Stuck, search_down-Stop}

pub uncovered : (a b : List ℕ) → IsOid a → IsOid b → (¬ Covers a b) → is_pos (oid_cover a b) ≡ false
uncovered a b ha hb n = elim (covering a b ha hb) [
  | above c e ↦ absurd (n c)
  | below c m e ↦ ap is_pos e
  | apart m k e ↦ ap is_pos e
]

pub LexLt-uncovered : (a b : List ℕ) → LexLt a b → ¬ Covers b a
LexLt-uncovered [] [] h c = elim h [ ]
LexLt-uncovered [] (y ∷ b) h c = elim c [ ]
LexLt-uncovered (x ∷ a) [] h c = elim h [ ]
LexLt-uncovered (x ∷ a) (y ∷ b) (inl p) c = absurd (omega (arith, p, c.0))
LexLt-uncovered (x ∷ a) (y ∷ b) (inr (e, h)) c = LexLt-uncovered a b h c.1

ltb_irrefl : (a : ℕ) → ltb a a ≡ false
ltb_irrefl a = ground arith

calls_from-nil : (n : Node) (up : List ℕ) → calls_from n [] up ≡ all_calls n up
unfolding calls_from all_calls
calls_from-nil (instance_node c) up = refl
calls_from-nil (group_node room s) up = refl

settle-cons : (n : Node) (x : ℕ) (rest : List ℕ) → settle (some n) (x ∷ rest) ≡ some (x ∷ rest)
unfolding settle
settle-cons (instance_node c) x rest = refl
settle-cons (group_node room s) x rest = refl

-- The calls from a node that lies ahead of the view: all of them below a group, and the one of an instance node
-- with what is left of the view.
unfoldable pub start_calls : Node → List ℕ → List ℕ → List Call
unfolding all_calls calls_from
start_calls (group_node room s) rest up = all_calls (group_node room s) up
start_calls (instance_node c) rest up = calls_from (instance_node c) rest up

module _ (lua_pcall : Lua) (view orig_oid : List ℕ) (n : Node) (h : IsTree n) (low : height n ≤ 64)
    (path : List ℕ) (var : Variable) where
  from_mode :
      (rest : List ℕ) (mode : Mode)
      → next_from lua_pcall view orig_oid n (length path) mode (path ++ rest) var
        ≡ next_loop lua_pcall view orig_oid (rounds n + 1) (some n) 0 mode (reverse path) [] var
  unfolding next_from
  from_mode rest mode = rw (next_from, take-append path rest) refl

  whole :
      next_loop lua_pcall view orig_oid (rounds n + 1) (some n) 0 none (reverse path) [] var
      ≡ answer lua_pcall view (all_calls n (reverse path)) (λ v. next (end_of_view orig_oid v)) var
  unfolding backtrack
  whole = visit_node lua_pcall view orig_oid n 1 (reverse path) [] var (omega arith)

  matched :
      (oid : List ℕ)
      → next_loop lua_pcall view orig_oid
          (rounds n + 1)
          (some n)
          0
          (settle (some n) oid)
          (reverse path)
          []
          var
        ≡ answer lua_pcall view
            (calls_from n oid (reverse path))
            (λ v. next (end_of_view orig_oid v))
            var
  matched oid =
      rw (← add-zero (rounds n + 1))
        (next_loop-calls lua_pcall view orig_oid n oid (reverse path) 0 var h low)

  within :
      (rest : List ℕ)
      → next_from lua_pcall view orig_oid n
          (length path)
          (mode_in (length path) (path ++ rest))
          (path ++ rest)
          var
        ≡ answer lua_pcall view
            (calls_from n rest (reverse path))
            (λ v. next (end_of_view orig_oid v))
            var
  unfolding mode_in
  within [] =
      let e : length (path ++ []) ≡ length path = ap (λ (z : List ℕ). length z) (append-nil path) in
      rw (e, ltb_irrefl (length path))
        (from_mode [] none ∙ whole ∙ rw (calls_from-nil n (reverse path)) refl)
  within (x ∷ rest) =
      let e : ltb (length path) (length (path ++ (x ∷ rest))) ≡ true =
        lt→ltb (length path) (length (path ++ (x ∷ rest)))
          (omega (arith, length-append path (x ∷ rest))) in
      rw (e, drop-append path (x ∷ rest))
        (from_mode (x ∷ rest) (some (x ∷ rest)) ∙ rw (settle-cons n x rest) at (matched (x ∷ rest)))

module _ (lua_pcall : Lua) (view orig_oid : List ℕ) (path rest : List ℕ) (var : Variable) where
  ahead :
      (n : Node)
      → IsTree n
      → height n ≤ 64
      → next_from lua_pcall view orig_oid n (length path) (start_mode n rest) (path ++ rest) var
        ≡ answer lua_pcall view
            (start_calls n rest (reverse path))
            (λ v. next (end_of_view orig_oid v))
            var
  unfolding start_mode start_calls settle
  ahead (group_node room s) h low =
      from_mode lua_pcall view orig_oid (group_node room s) h low path var rest none
      ∙ whole lua_pcall view orig_oid (group_node room s) h low path var
  ahead (instance_node c) h low =
      from_mode lua_pcall view orig_oid (instance_node c) h low path var rest (some rest)
      ∙ matched lua_pcall view orig_oid (instance_node c) h low path var rest

module _ (lua_pcall : Lua) (var : Variable) (view orig_oid : List ℕ) (root : Node) (hv : IsOid view)
    (h : IsTree root) (low : height root ≤ 64) where
  -- The node of the view.
  view-Stop :
      (r : SearchRes)
      → mib_tree_search lua_pcall 0xa0 var view view root ≡ some r
      → Stop root view r
  view-Stop r e =
      search_down-Stop lua_pcall var view root r h
        (sym (in_view lua_pcall 0xa0 var view view root hv hv (Covers-refl view)) ∙ e)

  -- How deep it is.
  depth : (r : SearchRes) (s : Stop root view r) → length view - length r.inst_id ≡ length s.path
  depth r s =
      let l : length view ≡ length (s.path ++ s.rest) = ap (λ (z : List ℕ). length z) s.split in
      let k : length r.inst_id ≡ length s.rest = ap (λ (z : List ℕ). length z) s.left in
      omega (arith, l, k, length-append s.path s.rest)

  module _ (r : SearchRes) (n : Node)
      (e : mib_tree_search lua_pcall 0xa0 var view view root ≡ some r) (f : r.node ≡ some n) where
    start_within :
        is_pos (oid_cover view orig_oid) ≡ true
        → mib_tree_search_next lua_pcall var view orig_oid root
          ≡ next_from lua_pcall view orig_oid n
              (length view - length r.inst_id)
              (mode_in (length view - length r.inst_id) orig_oid)
              orig_oid
              r.var
    unfolding mib_tree_search_next next_at
    start_within c = rw (mib_tree_search_next, c, e, f) (rw (next_at, c) refl)

    start_ahead :
        is_pos (oid_cover view orig_oid) ≡ false
        → is_neg (oid_cmp orig_oid view) ≡ true
        → mib_tree_search_next lua_pcall var view orig_oid root
          ≡ next_from lua_pcall view orig_oid n
              (length view - length r.inst_id)
              (start_mode n r.inst_id)
              view
              r.var
    unfolding mib_tree_search_next next_at
    start_ahead c l = rw (mib_tree_search_next, c, l, e, f) (rw (next_at, c) refl)

  pub next-within :
      (r : SearchRes)
      → IsOid orig_oid
      → Covers view orig_oid
      → mib_tree_search lua_pcall 0xa0 var view view root ≡ some r
      → (path rest : List ℕ) × (node : Node) × Covers path view
        × (orig_oid ≡ path ++ rest)
        × (node_at root path ≡ some node)
        × (mib_tree_search_next lua_pcall var view orig_oid root
            ≡ answer lua_pcall view
                (calls_from node rest (reverse path))
                (λ v. next (end_of_view orig_oid v))
                r.var)
  next-within r ho c e =
      let s = view-Stop r e in
      let (t, p) = Covers-suffix view orig_oid c in
      let q : orig_oid ≡ s.path ++ (s.rest ++ t) =
        p ∙ ap (λ z. z ++ t) s.split ∙ append_assoc s.path s.rest t in
      (
        s.path,
        s.rest ++ t,
        s.node,
        subst (Covers s.path) (sym s.split) (Covers-append s.path s.rest),
        q,
        s.at,
        start_within r s.node e s.res (ap is_pos ((oid_cover_iff view orig_oid hv ho).0.1 c))
            ∙ ap
                (λ z.
                  next_from lua_pcall view orig_oid s.node z (mode_in z orig_oid) orig_oid r.var)
                (depth r s)
            ∙ ap
                (λ z.
                  next_from lua_pcall view orig_oid s.node (length s.path)
                    (mode_in (length s.path) z) z r.var)
                q
            ∙ within lua_pcall view orig_oid s.node s.tree (omega (arith, s.low)) s.path r.var
                (s.rest ++ t),
      )

  pub ahead_run :
      (r : SearchRes)
      → is_pos (oid_cover view orig_oid) ≡ false
      → is_neg (oid_cmp orig_oid view) ≡ true
      → mib_tree_search lua_pcall 0xa0 var view view root ≡ some r
      → (path rest : List ℕ) × (node : Node) × (view ≡ path ++ rest)
        × (node_at root path ≡ some node)
        × Stuck node rest
        × (mib_tree_search_next lua_pcall var view orig_oid root
            ≡ answer lua_pcall view
                (start_calls node rest (reverse path))
                (λ v. next (end_of_view orig_oid v))
                r.var)
  ahead_run r c l e =
      let s = view-Stop r e in
      (
        s.path,
        s.rest,
        s.node,
        s.split,
        s.at,
        s.ends,
        start_ahead r s.node e s.res c l
            ∙ ap
                (λ z.
                  next_from lua_pcall view orig_oid s.node z (start_mode s.node r.inst_id) view
                    r.var)
                (depth r s)
            ∙ ap
                (λ z.
                  next_from lua_pcall view orig_oid s.node (length s.path) (start_mode s.node z)
                    view r.var)
                s.left
            ∙ ap
                (λ z.
                  next_from lua_pcall view orig_oid s.node (length s.path)
                    (start_mode s.node s.rest) z r.var)
                s.split
            ∙ ahead lua_pcall view orig_oid s.path s.rest r.var s.node s.tree
                (omega (arith, s.low)),
      )

  pub next-ahead :
      (r : SearchRes)
      → IsSmall view
      → IsSmall orig_oid
      → LexLt orig_oid view
      → mib_tree_search lua_pcall 0xa0 var view view root ≡ some r
      → (path rest : List ℕ) × (node : Node) × (view ≡ path ++ rest)
        × (node_at root path ≡ some node)
        × Stuck node rest
        × (mib_tree_search_next lua_pcall var view orig_oid root
            ≡ answer lua_pcall view
                (start_calls node rest (reverse path))
                (λ v. next (end_of_view orig_oid v))
                r.var)
  next-ahead r sv so lt =
      ahead_run r
        (uncovered view orig_oid hv (IsSmall-IsOid orig_oid so) (LexLt-uncovered orig_oid view lt))
        ((oid_cmp_order orig_oid view so sv).0.1 lt)

-- Where neither holds, no handler is asked.
pub behind_run :
    (lua_pcall : Lua) (var : Variable) (view orig_oid : List ℕ) (root : Node)
    → is_pos (oid_cover view orig_oid) ≡ false
    → is_neg (oid_cmp orig_oid view) ≡ false
    → mib_tree_search_next lua_pcall var view orig_oid root ≡ next (end_of_view orig_oid var)
unfolding mib_tree_search_next next_loop
behind_run lua_pcall var view orig_oid root c f = rw (mib_tree_search_next, c, f) refl

-- A GET search at the view that fails.
pub failed_run :
    (lua_pcall : Lua) (var : Variable) (view orig_oid : List ℕ) (root : Node)
    → (is_pos (oid_cover view orig_oid) || is_neg (oid_cmp orig_oid view)) ≡ true
    → mib_tree_search lua_pcall 0xa0 var view view root ≡ none
    → mib_tree_search_next lua_pcall var view orig_oid root ≡ failed
unfolding mib_tree_search_next
failed_run lua_pcall var view orig_oid root c e = rw (mib_tree_search_next, c, e) refl

-- Behind the view no handler is asked.
pub next-behind :
    (lua_pcall : Lua) (var : Variable) (view orig_oid : List ℕ) (root : Node)
    → IsSmall view
    → IsSmall orig_oid
    → LexLt view orig_oid
    → (¬ Covers view orig_oid)
    → mib_tree_search_next lua_pcall var view orig_oid root ≡ next (end_of_view orig_oid var)
next-behind lua_pcall var view orig_oid root sv so lt n =
    let c = uncovered view orig_oid (IsSmall-IsOid view sv) (IsSmall-IsOid orig_oid so) n in
    elim (Bool-cases (is_neg (oid_cmp orig_oid view))) [
      | inl t ↦ absurd (LexLt-asym view orig_oid lt ((oid_cmp_order orig_oid view so sv).0.0 t))
      | inr f ↦ behind_run lua_pcall var view orig_oid root c f
    ]
