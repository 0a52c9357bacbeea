-- ===== src/Mib/SearchNext/Promises.antt =====
-- `mib_tree_search_next` ends, and ends empty-handed only when no handler behind the object identifier has an answer.
use mathlib.Core.List.{reverse-reverse}
use smartsnmp.Base.{
  Bool-cases, ◌≢◌, true, arith, Bool, ◌||◌, false, ℕ, ◌≡◌, ◌≤◌, ◌∙◌, ◌⊎◌, sym, ap, subst, inl, inr,
  some, Option-cases, List, [], ◌∷◌, ◌++◌, All, reverse,
}
use smartsnmp.Oid.{oid_cmp, oid_cover}
use smartsnmp.Base.Int.{is_pos, is_neg}
use smartsnmp.Mib.Delete.Walk.{height}
use smartsnmp.Mib.Node.{group_node, instance_node, Node}
use smartsnmp.Mib.Node.Spec.{
  node_at_step, handler_at_step, node_at_miss, find, IsTree, handler_at, node_at,
}
use smartsnmp.Mib.Search.{Lua, Variable, SearchRes, mib_tree_search, mib_tag_valid}
use smartsnmp.Mib.SearchNext.{
  is_neg, failed, oid_cover, is_pos, ask, broken, missing, taken, end_of_view, out_of_fuel, NextRes,
  next, mib_tree_search_next,
}
use smartsnmp.Mib.SearchNext.Calls.{answer_step, answer, Call, calls_from}
use smartsnmp.Mib.SearchNext.Complete.{left_of, left_of-append, from_reach}
use smartsnmp.Mib.SearchNext.Greater.{node_at-IsTree}
use smartsnmp.Mib.SearchNext.Refines.{ahead_run, behind_run, failed_run, next-within}
use smartsnmp.Mib.SearchNext.Result.{Verdict-cases, Missed, answer-cases}
use smartsnmp.Mib.SearchNext.Unmoved.{Declines, Missed-Declines}
use smartsnmp.Oid.Compare.{IsOid, LexLt}
use smartsnmp.Oid.Cover.{Covers, Covers-suffix}
use smartsnmp.View.Covering.{apart, below, above, covering, Covers-trans}

pub LexLt-cancel : (p a b : List ℕ) → LexLt (p ++ a) (p ++ b) → LexLt a b
LexLt-cancel [] a b h = h
LexLt-cancel (x ∷ p) a b (inl h) = absurd (omega (arith, h))
LexLt-cancel (x ∷ p) a b (inr h) = LexLt-cancel p a b h.1

pub Covers-cancel : (p a b : List ℕ) → Covers (p ++ a) (p ++ b) → Covers a b
Covers-cancel [] a b h = h
Covers-cancel (x ∷ p) a b h = Covers-cancel p a b h.1

handler_at-append :
    (path rest : List ℕ) (root node : Node)
    → node_at root path ≡ some node
    → handler_at root (path ++ rest) ≡ handler_at node rest
handler_at-append [] rest root node e =
    let s : some root ≡ some node = unfold node_at in e in
    let q : root ≡ node = cc in ap (λ z. handler_at z rest) q
handler_at-append (x ∷ path) rest (instance_node c) node e = unfold node_at in cc
handler_at-append (x ∷ path) rest (group_node room s) node e = elim (Option-cases (find x s)) [
  | inl f ↦ (let e' = sym (node_at_miss room x path s f) ∙ e in cc)
  | inr (n, f) ↦
      handler_at_step room x (path ++ rest) s n f
      ∙ handler_at-append path rest n node (sym (node_at_step room x path s n f) ∙ e)
]

All-trivial : (xs : List Call) → All (λ call. Unit {0}) xs
All-trivial [] = tt
All-trivial (x ∷ xs) = (tt, All-trivial xs)

-- On a sorted tree of at most 64 levels and an object identifier in the view, if the GET search at the view meets
-- no failed assertion and the result is END_OF_MIB_VIEW, no handler that is registered in the view at `p`, behind the
-- given identifier or at a prefix of it, has an answer to it: asked with what of the given identifier is behind `p`, or
-- with nothing where `p` is no prefix (`left_of`), it gives no reply that is accepted, whatever the variable (`Declines`):
-- the call fails, or the reply has no valid tag, or its identifier neither is in the view nor covers it.
pub search_next_complete :
    (lua_pcall : Lua) (var : Variable) (view orig_oid p : List ℕ) (root : Node) (at : SearchRes)
    (r : NextRes) (c : ℕ)
    → IsOid view
    → IsOid orig_oid
    → IsTree root
    → height root ≤ 64
    → Covers view orig_oid
    → mib_tree_search lua_pcall 0xa0 var view view root ≡ some at
    → mib_tree_search_next lua_pcall var view orig_oid root ≡ next r
    → r.var.tag ≡ 0x82
    → Covers view p
    → handler_at root p ≡ some c
    → LexLt orig_oid p ⊎ Covers p orig_oid
    → Declines lua_pcall view record { callback = c; base = p; inst_id = left_of p orig_oid }
search_next_complete lua_pcall var view orig_oid p root at r c hv ho h low cover e f tag seen reg
      o =
    let (path, rest, node, cv, split, here, run) =
      next-within lua_pcall var view orig_oid root hv h low at ho cover e in
    let (rest', s) = Covers-suffix path p (Covers-trans path view p cv seen) in
    let calls = calls_from node rest (reverse path) in
    elim (answer-cases lua_pcall view orig_oid (λ call. Unit {0}) calls at.var r (All-trivial calls)
      (sym run ∙ f)) [
        | inr (call, u, t) ↦
            (let bad : mib_tag_valid 0x82 ≡ true =
                subst (λ z. mib_tag_valid z ≡ true) (sym t.tag ∙ tag) t.valid in
              unfold mib_tag_valid in cc)
        | inl (missed, q, u) ↦
            (let m =
                from_reach (Missed lua_pcall view) rest rest' node (reverse path) c
                  (node_at-IsTree path root node h here) missed
                  (sym (handler_at-append path rest' root node here)
                    ∙ ap (handler_at root) (sym s)
                    ∙ reg)
                  (elim o [
                    | inl lt ↦ inl (
                        LexLt-cancel path rest rest' (
                          subst (λ z. LexLt z (path ++ rest')) split (subst (LexLt orig_oid) s lt)))
                    | inr k ↦ inr (
                        Covers-cancel path rest' rest
                          (subst (λ z. Covers z (path ++ rest)) s (subst (Covers p) split k)))
                  ]) in
              let same : left_of p orig_oid ≡ left_of rest' rest =
                ap (λ z. left_of z orig_oid) s
                ∙ ap (left_of (path ++ rest')) split
                ∙ left_of-append path rest' rest in
              Missed-Declines lua_pcall view _ (
                rw same (
                  subst
                    (λ z.
                      Missed lua_pcall view
                        record { callback = c; base = z; inst_id = left_of rest' rest })
                    (ap (λ z. z ++ rest') (reverse-reverse path) ∙ sym s) m)))
      ]

pub or_left : (a b : Bool) → (a || b) ≡ false → a ≡ false
or_left a b h = ground arith

pub or_right : (a b : Bool) → (a || b) ≡ false → b ≡ false
or_right a b h = ground arith

answer_ends :
    (lua_pcall : Lua) (view orig_oid : List ℕ) (calls : List Call) (var : Variable)
    → answer lua_pcall view calls (λ v. next (end_of_view orig_oid v)) var ≢ out_of_fuel
unfolding smartsnmp.Mib.SearchNext.proceed
answer_ends lua_pcall view orig_oid [] var e = unfold answer in cc
answer_ends lua_pcall view orig_oid (call ∷ calls) var e =
    elim (Verdict-cases lua_pcall view orig_oid
      (ask lua_pcall view call.callback var call.base call.inst_id)) [
        | inl b ↦
            (let e' : failed ≡ out_of_fuel =
                sym (answer_step lua_pcall view call calls _ var broken b) ∙ e in
              cc)
        | inr (inl (v, m)) ↦
            answer_ends lua_pcall view orig_oid calls v
              (sym (answer_step lua_pcall view call calls _ var (missing v) m) ∙ e)
        | inr (inr (s, t)) ↦
            (let e' : next s ≡ out_of_fuel =
                sym (answer_step lua_pcall view call calls _ var (taken s) t) ∙ e in
              cc)
      ]

-- On a sorted tree of at most 64 levels the loop of `mib_tree_search_next` ends, in the view, ahead of it and behind:
-- the fuel, one round more than the deletion of the start node takes, never runs out.
pub search_next-ends :
    (lua_pcall : Lua) (var : Variable) (view orig_oid : List ℕ) (root : Node)
    → IsOid view
    → IsOid orig_oid
    → IsTree root
    → height root ≤ 64
    → mib_tree_search_next lua_pcall var view orig_oid root ≢ out_of_fuel
search_next-ends lua_pcall var view orig_oid root hv ho h low e =
    elim (Option-cases (mib_tree_search lua_pcall 0xa0 var view view root)) [
      | inl n ↦
          elim (Bool-cases (is_pos (oid_cover view orig_oid) || is_neg (oid_cmp orig_oid view))) [
            | inl t ↦
                (let e' : failed ≡ out_of_fuel =
                    sym (failed_run lua_pcall var view orig_oid root t n) ∙ e in
                  cc)
            | inr f ↦
                (let e' : next (end_of_view orig_oid var) ≡ out_of_fuel =
                    sym (
                      behind_run lua_pcall var view orig_oid root
                        (or_left (is_pos (oid_cover view orig_oid)) (is_neg (oid_cmp orig_oid view))
                          f)
                        (or_right (is_pos (oid_cover view orig_oid))
                          (is_neg (oid_cmp orig_oid view)) f))
                    ∙ e in
                  cc)
          ]
      | inr (at, s) ↦ elim (Bool-cases (is_pos (oid_cover view orig_oid))) [
        | inl t ↦ elim (covering view orig_oid hv ho) [
          | above c k ↦
              (let (path, rest, node, cv, split, here, run) =
                  next-within lua_pcall var view orig_oid root hv h low at ho c s in
                answer_ends lua_pcall view orig_oid _ at.var (sym run ∙ e))
          | below c k m ↦ (let t' = rw m at t in cc)
          | apart c k m ↦ (let t' = rw m at t in cc)
        ]
        | inr f ↦ elim (Bool-cases (is_neg (oid_cmp orig_oid view))) [
          | inl t ↦
              (let (path, rest, node, split, here, stuck, run) =
                  ahead_run lua_pcall var view orig_oid root hv h low at f t s in
                answer_ends lua_pcall view orig_oid _ at.var (sym run ∙ e))
          | inr g ↦
              (let e' : next (end_of_view orig_oid var) ≡ out_of_fuel =
                  sym (behind_run lua_pcall var view orig_oid root f g) ∙ e in
                cc)
        ]
      ]
    ]
