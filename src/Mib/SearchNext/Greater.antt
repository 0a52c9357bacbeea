-- ===== src/Mib/SearchNext/Greater.antt =====
-- What `mib_tree_search_next` promises to its caller.
use smartsnmp.Mib.Stored.{to_int, to_oids, stored}
use smartsnmp.Mib.Node.Spec.{find-IsTree}
use smartsnmp.Mib.Node.Spec.{find}
use smartsnmp.Mib.Node.{group_node}
use smartsnmp.Mib.Node.{instance_node}
use smartsnmp.Ber.Value.{fits_union}
use smartsnmp.Mib.Node.Spec.{node_at_step, node_at_miss}
use smartsnmp.Base.{◌&&◌}
use smartsnmp.Mib.Search.{has_value}
use smartsnmp.Base.{Option}
use smartsnmp.Base.{◌%◌}
use mathlib.Core.List.{append_assoc, reverse-reverse}
use smartsnmp.Base.{
  ℕ, ◌≡◌, ◌≤◌, ◌∙◌, ◌⊎◌, refl, sym, ap, subst, inl, inr, none, some, true, false, Bool-cases,
  Option-cases,
}
use smartsnmp.Base.{List, [], ◌∷◌, ◌++◌, length, reverse}
use smartsnmp.Base.Int.{is_zero}
use smartsnmp.Oid.{oid_cover}
use smartsnmp.Oid.Compare.{IsOid, LexLt}
use smartsnmp.Oid.Cover.{Covers}
use smartsnmp.View.Covering.{above, below, apart, covering, Covers-trans}
use smartsnmp.Mib.Node.{Node}
use smartsnmp.Mib.Node.Spec.{IsTree, node_at}
use smartsnmp.Mib.Search.{
  Lua, Variable, Reply, SearchRes, Instance, mib_tag_valid, mib_instance_search, mib_tree_search,
  req_val,
}
use smartsnmp.Mib.Delete.Walk.{height}
use smartsnmp.Mib.SearchNext.{NextRes, next, mib_tree_search_next}
use smartsnmp.Mib.SearchNext.Calls.{Call, calls_from}
use smartsnmp.Mib.SearchNext.Refines.{next-within, LexLt-uncovered}
use smartsnmp.Mib.SearchNext.Ordered.{Behind, calls_from-Behind}
use smartsnmp.Mib.SearchNext.Result.{Taken, answer-cases}

-- Handlers that answer GETNEXT without an error, and with an identifier that, cut to words of 32 bits, is behind the one
-- that they were asked for.
abbrev pub Advances : Lua → Type 0
Advances lua_pcall =
    (callback : ℕ) (inst_id : List ℕ) (r : Reply)
    → lua_pcall callback 0xa1 inst_id none ≡ some r
    → mib_tag_valid (r.tag % 256) ≡ true
    → (is_zero (to_int r.err_stat) ≡ true) × LexLt inst_id (to_oids r.inst_id)

LexLt-append : (p a b : List ℕ) → LexLt a b → LexLt (p ++ a) (p ++ b)
LexLt-append [] a b h = h
LexLt-append (x ∷ p) a b h = inr (refl, LexLt-append p a b h)

tag_of : Option Instance → ℕ
tag_of none = 0
tag_of (some i) = i.var.tag

inst_id_or : Option Instance → List ℕ
inst_id_or none = []
inst_id_or (some i) = i.inst_id

-- What a handler that advances is asked, and the identifier of its reply as it is stored.
pub instance-stored :
    (lua_pcall : Lua) (c : ℕ) (var : Variable) (inst_id : List ℕ) (i : Instance)
    → Advances lua_pcall
    → mib_instance_search lua_pcall c 0xa1 var inst_id ≡ some i
    → mib_tag_valid i.var.tag ≡ true
    → (r : Reply) × (lua_pcall c 0xa1 inst_id none ≡ some r)
      × LexLt inst_id (to_oids r.inst_id)
      × (i.inst_id ≡ to_oids r.inst_id)
unfolding mib_instance_search req_val tag_of inst_id_or
instance-stored lua_pcall c var inst_id i h e v =
    elim (Option-cases (lua_pcall c 0xa1 inst_id none)) [
      | inl n ↦
          (let e' = rw (mib_instance_search, n) at e in
            let q : 0x80 ≡ i.var.tag = ap tag_of e' in
            let f : mib_tag_valid i.var.tag ≡ false = rw (← q) refl in cc)
      | inr (r, n) ↦ elim (Bool-cases (mib_tag_valid (r.tag % 256))) [
        | inr f ↦ elim (Bool-cases (is_zero (to_int r.err_stat))) [
          | inl z ↦
              (let e' = rw (mib_instance_search, n, z, f) at e in
                let q : r.tag % 256 ≡ i.var.tag = ap tag_of e' in
                let f' : mib_tag_valid i.var.tag ≡ false = rw (← q) f in cc)
          | inr z ↦
              (let e' = rw (mib_instance_search, n, z) at e in
                let q : r.tag % 256 ≡ i.var.tag = ap tag_of e' in
                let f' : mib_tag_valid i.var.tag ≡ false = rw (← q) f in cc)
        ]
        | inl t ↦
            (let (z, lt) = h c inst_id r n t in
              let e' = rw (mib_instance_search, n, z, t) at e in
              elim (Bool-cases (has_value (r.tag % 256) && fits_union (stored r.value))) [
                | inl w ↦ (let e'' = rw w at e' in (r, n, lt, sym (ap inst_id_or e'')))
                | inr w ↦ (let e'' = rw w at e' in cc)
              ])
      ]
    ]

instance-Advances :
    (lua_pcall : Lua) (c : ℕ) (var : Variable) (inst_id : List ℕ) (i : Instance)
    → Advances lua_pcall
    → mib_instance_search lua_pcall c 0xa1 var inst_id ≡ some i
    → mib_tag_valid i.var.tag ≡ true
    → LexLt inst_id i.inst_id
instance-Advances lua_pcall c var inst_id i h e v =
    let (r, n, lt, q) = instance-stored lua_pcall c var inst_id i h e v in
    subst (LexLt inst_id) (sym q) lt

pub Taken-greater :
    (lua_pcall : Lua) (view path rest : List ℕ) (call : Call) (r : NextRes)
    → Advances lua_pcall
    → Behind (reverse path) rest call
    → Taken lua_pcall view call r
    → LexLt (path ++ rest) r.oid
Taken-greater lua_pcall view path rest call r adv b t =
    let lt : LexLt rest (b.path ++ t.inst.inst_id) =
      b.order t.inst.inst_id
        (instance-Advances lua_pcall call.callback t.var call.inst_id t.inst adv t.asked t.valid) in
    let q : r.oid ≡ path ++ (b.path ++ t.inst.inst_id) =
      t.oid
      ∙ ap (λ z. z ++ t.inst.inst_id) (b.base ∙ ap (λ z. z ++ b.path) (reverse-reverse path))
      ∙ append_assoc path b.path t.inst.inst_id in
    subst (LexLt (path ++ rest)) (sym q) (LexLt-append path rest (b.path ++ t.inst.inst_id) lt)

-- A result that `oid_cover` does not reject, and that is behind an identifier of the view, is in the view.
pub seen-Covers :
    (view orig oid : List ℕ)
    → IsOid view
    → IsOid oid
    → Covers view orig
    → LexLt orig oid
    → is_zero (oid_cover view oid) ≡ false
    → Covers view oid
seen-Covers view orig oid hv ho c lt z = elim (covering view oid hv ho) [
  | above k e ↦ k
  | below k n e ↦ absurd (LexLt-uncovered orig oid lt (Covers-trans oid view orig k c))
  | apart m k e ↦ (let z' = rw e at z in cc)
]

pub node_at-IsTree :
    (path : List ℕ) (root node : Node) → IsTree root → node_at root path ≡ some node → IsTree node
unfolding node_at
node_at-IsTree [] root node h e = let q : root ≡ node = cc in subst IsTree q h
node_at-IsTree (x ∷ path) (instance_node c) node h e = cc
node_at-IsTree (x ∷ path) (group_node room s) node h e = elim (Option-cases (find x s)) [
  | inl f ↦ (let e' = sym (node_at_miss room x path s f) ∙ e in cc)
  | inr (n, f) ↦
      node_at-IsTree path n node (find-IsTree s x n h f) (sym (node_at_step room x path s n f) ∙ e)
]

-- On a sorted tree of at most 64 levels and an object identifier in the view, if the handlers reply to GETNEXT
-- without an error and with an identifier behind the one they are asked for (`Advances`), and the GET search at the
-- view meets no failed assertion, what `mib_tree_search_next` returns is an object identifier strictly greater than the given one, in
-- the view, of at most 64 sub-identifiers and with a valid tag, or the given one with END_OF_MIB_VIEW.
pub search_next-within :
    (lua_pcall : Lua) (var : Variable) (view orig_oid : List ℕ) (root : Node) (at : SearchRes)
    (r : NextRes)
    → IsOid view
    → IsOid orig_oid
    → IsOid r.oid
    → IsTree root
    → height root ≤ 64
    → Covers view orig_oid
    → Advances lua_pcall
    → mib_tree_search lua_pcall 0xa0 var view view root ≡ some at
    → mib_tree_search_next lua_pcall var view orig_oid root ≡ next r
    → ((r.oid ≡ orig_oid) × (r.var.tag ≡ 0x82))
      ⊎ (LexLt orig_oid r.oid
          × Covers view r.oid
          × (length r.oid ≤ 64)
          × (mib_tag_valid r.var.tag ≡ true))
search_next-within lua_pcall var view orig_oid root at r hv ho hr h low c adv e f =
    let (path, rest, node, cover, split, here, run) =
      next-within lua_pcall var view orig_oid root hv h low at ho c e in
    elim (answer-cases lua_pcall view orig_oid (Behind (reverse path) rest)
      (calls_from node rest (reverse path)) at.var r
      (calls_from-Behind node rest (reverse path) (node_at-IsTree path root node h here))
      (sym run ∙ f)) [
        | inl (missed, q, t) ↦ inl (q, t)
        | inr (call, b, t) ↦
            (let lt = Taken-greater lua_pcall view path rest call r adv b t in
              let lt' : LexLt orig_oid r.oid = subst (λ z. LexLt z r.oid) (sym split) lt in
              inr (
                lt',
                seen-Covers view orig_oid r.oid hv hr c lt' t.seen,
                t.short,
                rw t.tag t.valid,
              ))
      ]
