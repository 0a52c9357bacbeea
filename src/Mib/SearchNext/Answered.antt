-- ===== src/Mib/SearchNext/Answered.antt =====
-- GETNEXT wherever the object identifier lies: what it answers is of 32-bit words, in the view, and behind it.
use mathlib.Core.List.{reverse-reverse}
use smartsnmp.Base.{
  ℕ, ◌≡◌, ◌≤◌, ◌∙◌, ◌||◌, sym, ap, subst, inl, inr, some, false, arith, Bool-cases, Option-cases,
  List, ◌++◌, All, reverse,
}
use smartsnmp.Oid.{oid_cmp, oid_cover}
use smartsnmp.Base.Bytes.{IsU32}
use smartsnmp.Base.Int.{is_pos, is_neg}
use smartsnmp.Mib.Delete.Walk.{height}
use smartsnmp.Mib.Node.{Node}
use smartsnmp.Mib.Node.Spec.{IsTree}
use smartsnmp.Mib.Search.{Lua, Variable, SearchRes, mib_tree_search}
use smartsnmp.Mib.SearchNext.{NextRes, next, failed, end_of_view, mib_tree_search_next}
use smartsnmp.Mib.SearchNext.Ahead.{Follows, search_next-Follows}
use smartsnmp.Mib.SearchNext.Calls.{Call, answer, calls_from}
use smartsnmp.Mib.SearchNext.Greater.{Advances, instance-stored}
use smartsnmp.Mib.SearchNext.Promises.{or_left, or_right}
use smartsnmp.Mib.SearchNext.Refines.{start_calls, next-within, ahead_run, behind_run, failed_run}
use smartsnmp.Mib.SearchNext.Result.{Taken, answer-cases}
use smartsnmp.Mib.SearchNext.Words.{
  HasWords, BaseHasWords, words-append, words-left, to_oids-words, calls_from-words,
  start_calls-words, node_at-words,
}
use smartsnmp.Oid.Compare.{IsOid, IsSmall, IsSmall-IsOid}
use smartsnmp.Oid.Cover.{Covers}
use smartsnmp.View.Covering.{above, below, apart, covering}

Taken-IsOid :
    (lua_pcall : Lua) (view : List ℕ) (call : Call) (r : NextRes)
    → Advances lua_pcall
    → BaseHasWords call
    → Taken lua_pcall view call r
    → IsOid r.oid
Taken-IsOid lua_pcall view call r adv h t =
    let (reply, n, lt, e) =
      instance-stored lua_pcall call.callback t.var call.inst_id t.inst adv t.asked t.valid in
    let k : All IsU32 t.inst.inst_id = subst (All IsU32) (sym e) (to_oids-words reply.inst_id) in
    record {
      words = subst (All IsU32) (sym t.oid) (words-append call.base t.inst.inst_id h k);
      short = omega (arith, t.short);
    }

-- On the ways of the tree.
path-words :
    (path rest oid : List ℕ) → oid ≡ path ++ rest → IsOid oid → All IsU32 (reverse (reverse path))
path-words path rest oid e h =
    subst (All IsU32) (sym (reverse-reverse path))
      (words-left path rest (subst (All IsU32) e h.words))

module _ (lua_pcall : Lua) (var : Variable) (view orig_oid : List ℕ) (root : Node) (r : NextRes)
    (sv : IsSmall view) (so : IsSmall orig_oid) (h : IsTree root) (hw : HasWords root)
    (low : height root ≤ 64) (adv : Advances lua_pcall)
    (f : mib_tree_search_next lua_pcall var view orig_oid root ≡ next r) where
  hv : IsOid view
  hv = IsSmall-IsOid view sv

  ho : IsOid orig_oid
  ho = IsSmall-IsOid orig_oid so

  end-IsOid : end_of_view orig_oid var ≡ r → IsOid r.oid
  unfolding end_of_view
  end-IsOid e = subst IsOid (ap (λ (x : NextRes). x.oid) e) ho

  answer-IsOid :
      (calls : List Call) (var' : Variable)
      → All BaseHasWords calls
      → answer lua_pcall view calls (λ v. next (end_of_view orig_oid v)) var' ≡ next r
      → IsOid r.oid
  answer-IsOid calls var' w e =
      elim (answer-cases lua_pcall view orig_oid BaseHasWords calls var' r w e) [
        | inl (missed, q, t) ↦ subst IsOid (sym q) ho
        | inr (call, b, t) ↦ Taken-IsOid lua_pcall view call r adv b t
      ]

  within-IsOid :
      (at : SearchRes)
      → Covers view orig_oid
      → mib_tree_search lua_pcall 0xa0 var view view root ≡ some at
      → IsOid r.oid
  within-IsOid at c e =
      let (path, rest, node, cv, split, here, run) =
        next-within lua_pcall var view orig_oid root hv h low at ho c e in
      answer-IsOid (calls_from node rest (reverse path)) at.var
        (calls_from-words node rest (reverse path) (node_at-words path root node hw here)
          (path-words path rest orig_oid split ho))
        (sym run ∙ f)

  outside-IsOid :
      (at : SearchRes)
      → is_pos (oid_cover view orig_oid) ≡ false
      → mib_tree_search lua_pcall 0xa0 var view view root ≡ some at
      → IsOid r.oid
  outside-IsOid at p e = elim (Bool-cases (is_neg (oid_cmp orig_oid view))) [
    | inl t ↦
        (let (path, rest, node, split, here, stuck, run) =
            ahead_run lua_pcall var view orig_oid root hv h low at p t e in
          answer-IsOid (start_calls node rest (reverse path)) at.var
            (start_calls-words node rest (reverse path) (node_at-words path root node hw here)
              (path-words path rest view split hv))
            (sym run ∙ f))
    | inr g ↦
        (let q : next (end_of_view orig_oid var) ≡ next r =
            sym (behind_run lua_pcall var view orig_oid root p g) ∙ f in
          end-IsOid cc)
  ]

  found-IsOid :
      (at : SearchRes) → mib_tree_search lua_pcall 0xa0 var view view root ≡ some at → IsOid r.oid
  found-IsOid at e = elim (covering view orig_oid hv ho) [
    | above c k ↦ within-IsOid at c e
    | below c n k ↦ outside-IsOid at (ap is_pos k) e
    | apart m n k ↦ outside-IsOid at (ap is_pos k) e
  ]

  next-IsOid : IsOid r.oid
  next-IsOid =
      let inside = is_pos (oid_cover view orig_oid) in
      let before = is_neg (oid_cmp orig_oid view) in
      elim (Option-cases (mib_tree_search lua_pcall 0xa0 var view view root)) [
        | inr (at, e) ↦ found-IsOid at e
        | inl n ↦ elim (Bool-cases (inside || before)) [
          | inl t ↦
              (let q : failed ≡ next r =
                  sym (failed_run lua_pcall var view orig_oid root t n) ∙ f in
                cc)
          | inr g ↦
              (let q : next (end_of_view orig_oid var) ≡ next r =
                  sym (
                    behind_run lua_pcall var view orig_oid root (or_left inside before g)
                      (or_right inside before g))
                  ∙ f in
                end-IsOid cc)
        ]
      ]

-- On a sorted tree of at most 64 levels whose sub-identifiers are 32-bit words, for a view and an object
-- identifier of elements below 2 ^ 31, in the view, ahead of it or behind: if the handlers reply to GETNEXT
-- without an error and with an identifier that, cut to 32-bit words, is behind the one they are asked for
-- (`Advances`), what `mib_tree_search_next` returns is an object identifier of 32-bit words, strictly greater than
-- the given one, in the view, of at most 64 sub-identifiers and with a valid tag, or it is the given one with
-- END_OF_MIB_VIEW.
pub search_next-greater :
    (lua_pcall : Lua) (var : Variable) (view orig_oid : List ℕ) (root : Node) (r : NextRes)
    → IsSmall view
    → IsSmall orig_oid
    → IsTree root
    → HasWords root
    → height root ≤ 64
    → Advances lua_pcall
    → mib_tree_search_next lua_pcall var view orig_oid root ≡ next r
    → IsOid r.oid × Follows view orig_oid r
search_next-greater lua_pcall var view orig_oid root r sv so h hw low adv f =
    let o = next-IsOid lua_pcall var view orig_oid root r sv so h hw low adv f in
    (o, search_next-Follows lua_pcall var view orig_oid root r sv so o h low adv f)
