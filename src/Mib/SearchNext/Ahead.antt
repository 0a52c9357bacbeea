-- ===== src/Mib/SearchNext/Ahead.antt =====
-- GETNEXT wherever the object identifier lies: the results are in the view, and behind it.
use mathlib.Core.List.{append_assoc, reverse-reverse}
use smartsnmp.Base.{
  ◌||◌, Option-cases, sym, some, length, true, false, ◌≤◌, arith, ◌⊎◌, ℕ, ◌≡◌, ◌≢◌, ◌∙◌, ap, subst,
  inl, inr, none, Bool-cases, List, [], ◌∷◌, ◌++◌, All, reverse, ◌==◌, ==_refl,
}
use smartsnmp.Oid.{oid_cmp, oid_cover}
use smartsnmp.Base.Int.{is_pos, is_neg}
use smartsnmp.Mib.Delete.Walk.{height}
use smartsnmp.Mib.Node.{instance_node, Node, group_node, Subs, nil, cons}
use smartsnmp.Mib.Node.Spec.{IsTree, find}
use smartsnmp.Mib.Search.{Variable, SearchRes, mib_tag_valid, mib_tree_search, Lua}
use smartsnmp.Mib.SearchNext.{failed, next, end_of_view, mib_tree_search_next, NextRes}
use smartsnmp.Mib.SearchNext.Calls.{calls_from, Call, all_calls, subs_calls}
use smartsnmp.Mib.SearchNext.Greater.{
  Advances, Taken-greater, seen-Covers, node_at-IsTree, search_next-within,
}
use smartsnmp.Mib.SearchNext.Ordered.{
  Behind, calls_from-Behind, step_base, All-append, All-map, all_calls-Behind,
}
use smartsnmp.Mib.SearchNext.Promises.{or_left, or_right, Covers-cancel}
use smartsnmp.Mib.SearchNext.Refines.{failed_run, start_calls, ahead_run, behind_run}
use smartsnmp.Mib.SearchNext.Result.{answer-cases, Taken}
use smartsnmp.Mib.SearchNext.Start.{Stuck}
use smartsnmp.Oid.Compare.{IsSmall, IsSmall-IsOid, oid_cmp_order, LexLt, IsOid}
use smartsnmp.Oid.Cover.{Covers}
use smartsnmp.View.Covering.{above, below, apart, covering, Covers-refl}

-- A call below one of the children.
record Inside (s : Subs) (up : List ℕ) (call : Call) : Type 0 where
  id : ℕ
  path : List ℕ
  base : call.base ≡ reverse up ++ (id ∷ path)
  child : find id s ≢ none

find_head : (k : ℕ) (n : Node) (s : Subs) → find k (cons k n s) ≢ none
unfolding find
find_head k n s e = let e' = rw (==_refl k) at e in cc

find_tail : (k id : ℕ) (n : Node) (s : Subs) → find id s ≢ none → find id (cons k n s) ≢ none
unfolding find
find_tail k id n s h e = elim (Bool-cases (k == id)) [
  | inl t ↦ (let e' = rw t at e in cc)
  | inr f ↦ h (rw f at e)
]

subs_calls-Inside : (s : Subs) (up : List ℕ) → All (Inside s up) (subs_calls s up)
unfolding subs_calls
subs_calls-Inside nil up = tt
subs_calls-Inside (cons k n s) up =
    All-append _ (all_calls n (k ∷ up)) (subs_calls s up)
      (All-map _ _ (all_calls n (k ∷ up))
        (λ call b. record {
          id = k;
          path = b.path;
          base = step_base k up b.path call.base b.base;
          child = find_head k n s;
        })
        (all_calls-Behind n (k ∷ up)))
      (All-map _ _ (subs_calls s up)
        (λ call i. record {
          id = i.id;
          path = i.path;
          base = i.base;
          child = find_tail k i.id n s i.child;
        })
        (subs_calls-Inside s up))

-- A result that is not rejected lies in the view.
abbrev Lands : Lua → List ℕ → Call → Type 0
Lands lua_pcall view call =
    (r : NextRes) → IsOid r.oid → Taken lua_pcall view call r → Covers view r.oid

not_above :
    (room : ℕ) (s : Subs) (path rest : List ℕ) (call : Call)
    → Inside s (reverse path) call
    → Stuck (group_node room s) rest
    → (tail : List ℕ) → ¬ Covers (call.base ++ tail) (path ++ rest)
not_above room s path rest call i u tail c =
    let q : call.base ++ tail ≡ path ++ (i.id ∷ (i.path ++ tail)) =
      ap (λ z. z ++ tail) (i.base ∙ ap (λ z. z ++ (i.id ∷ i.path)) (reverse-reverse path))
      ∙ append_assoc path (i.id ∷ i.path) tail in
    blocked rest u
      (Covers-cancel path (i.id ∷ (i.path ++ tail)) rest (subst (λ z. Covers z (path ++ rest)) q c))
  where
    blocked :
        (rest' : List ℕ)
        → Stuck (group_node room s) rest'
        → ¬ Covers (i.id ∷ (i.path ++ tail)) rest'
    blocked [] u' k = k
    blocked (y ∷ rest') u' k = i.child (ap (λ z. find z s) k.0 ∙ u')

module _ (lua_pcall : Lua) (view path rest : List ℕ) (hv : IsOid view) (split : view ≡ path ++ rest)
    (adv : Advances lua_pcall) where
  Inside-Lands :
      (room : ℕ) (s : Subs) (call : Call)
      → Stuck (group_node room s) rest
      → Inside s (reverse path) call
      → Lands lua_pcall view call
  Inside-Lands room s call u i r hr t = elim (covering view r.oid hv hr) [
    | above k e ↦ k
    | below k n e ↦ absurd (
        not_above room s path rest call i u t.inst.inst_id
          (subst (λ z. Covers z (path ++ rest)) t.oid (subst (Covers r.oid) split k)))
    | apart m k e ↦ (let z = rw e at t.seen in cc)
  ]

  Behind-Lands : (call : Call) → Behind (reverse path) rest call → Lands lua_pcall view call
  Behind-Lands call b r hr t =
      seen-Covers view view r.oid hv hr (Covers-refl view)
        (subst (λ z. LexLt z r.oid) (sym split)
          (Taken-greater lua_pcall view path rest call r adv b t))
        t.seen

  start-Lands :
      (n : Node)
      → IsTree n
      → Stuck n rest
      → All (Lands lua_pcall view) (start_calls n rest (reverse path))
  unfolding start_calls all_calls
  start-Lands (group_node room s) h u =
      All-map _ _ (subs_calls s (reverse path)) (λ call i. Inside-Lands room s call u i)
        (subs_calls-Inside s (reverse path))
  start-Lands (instance_node c) h u =
      All-map _ _ (calls_from (instance_node c) rest (reverse path)) Behind-Lands
        (calls_from-Behind (instance_node c) rest (reverse path) h)

LexLt-Covers : (a b c : List ℕ) → LexLt a b → Covers b c → LexLt a c
LexLt-Covers [] [] c h k = elim h [ ]
LexLt-Covers [] (y ∷ b) [] h k = elim k [ ]
LexLt-Covers [] (y ∷ b) (z ∷ c) h k = tt
LexLt-Covers (x ∷ a) [] c h k = elim h [ ]
LexLt-Covers (x ∷ a) (y ∷ b) [] h k = elim k [ ]
LexLt-Covers (x ∷ a) (y ∷ b) (z ∷ c) (inl h) k = inl (omega (arith, h, k.0))
LexLt-Covers (x ∷ a) (y ∷ b) (z ∷ c) (inr h) k = inr (h.0 ∙ k.0, LexLt-Covers a b c h.1 k.1)

-- What `mib_tree_search_next` answers for `orig_oid`: the end of the view, or a next object.
abbrev pub Follows : List ℕ → List ℕ → NextRes → Type 0
Follows view orig_oid r =
    ((r.oid ≡ orig_oid) × (r.var.tag ≡ 0x82))
    ⊎ (LexLt orig_oid r.oid
        × Covers view r.oid
        × (length r.oid ≤ 64)
        × (mib_tag_valid r.var.tag ≡ true))

-- Where the search at the view succeeds.
answered_greater :
    (lua_pcall : Lua) (var : Variable) (view orig_oid : List ℕ) (root : Node) (at : SearchRes)
    (r : NextRes)
    → IsSmall view
    → IsSmall orig_oid
    → IsOid r.oid
    → IsTree root
    → height root ≤ 64
    → Advances lua_pcall
    → mib_tree_search lua_pcall 0xa0 var view view root ≡ some at
    → mib_tree_search_next lua_pcall var view orig_oid root ≡ next r
    → Follows view orig_oid r
unfolding end_of_view
answered_greater lua_pcall var view orig_oid root at r sv so hr h low adv e f =
    let hv = IsSmall-IsOid view sv in
    let ho = IsSmall-IsOid orig_oid so in
    elim (covering view orig_oid hv ho) [
      | above c k ↦
          search_next-within lua_pcall var view orig_oid root at r hv ho hr h low c adv e f
      | below c n k ↦ outside hv (ap is_pos k)
      | apart m n k ↦ outside hv (ap is_pos k)
    ]
  where
    ahead :
        IsOid view
        → is_pos (oid_cover view orig_oid) ≡ false
        → is_neg (oid_cmp orig_oid view) ≡ true
        → Follows view orig_oid r
    ahead hv p t =
        let (path, rest, node, split, here, stuck, run) =
          ahead_run lua_pcall var view orig_oid root hv h low at p t e in
        let lt = (oid_cmp_order orig_oid view so sv).0.0 t in
        elim (answer-cases lua_pcall view orig_oid (Lands lua_pcall view)
          (start_calls node rest (reverse path)) at.var r
          (start-Lands lua_pcall view path rest hv split adv node
            (node_at-IsTree path root node h here) stuck)
          (sym run ∙ f)) [
            | inl (missed, q, u) ↦ inl (q, u)
            | inr (call, lands, t) ↦
                (let c = lands r hr t in
                  inr (
                    LexLt-Covers orig_oid view r.oid lt c,
                    c,
                    t.short,
                    subst (λ z. mib_tag_valid z ≡ true) (sym t.tag) t.valid,
                  ))
          ]

    outside : IsOid view → is_pos (oid_cover view orig_oid) ≡ false → Follows view orig_oid r
    outside hv p = elim (Bool-cases (is_neg (oid_cmp orig_oid view))) [
      | inl t ↦ ahead hv p t
      | inr g ↦
          (let q : next (end_of_view orig_oid var) ≡ next r =
              sym (behind_run lua_pcall var view orig_oid root p g) ∙ f in
            let s : end_of_view orig_oid var ≡ r = cc in
            inl (ap (λ (x : NextRes). x.oid) (sym s), ap (λ (x : NextRes). x.var.tag) (sym s)))
    ]

-- On a sorted tree of at most 64 levels, for a view and an object identifier of elements below 2 ^ 31, in the
-- view, ahead of it or behind: if the handlers reply to GETNEXT without an error and with an identifier that, cut
-- to 32-bit words, is behind the one they are asked for (`Advances`), and the identifier that
-- `mib_tree_search_next` returns is one of less than 2 ^ 31 words of 32 bits (`IsOid`), then it is strictly
-- greater than the given one, in the view, of at most 64 sub-identifiers and with a valid tag, or it is the given
-- one with END_OF_MIB_VIEW.
pub search_next-Follows :
    (lua_pcall : Lua) (var : Variable) (view orig_oid : List ℕ) (root : Node) (r : NextRes)
    → IsSmall view
    → IsSmall orig_oid
    → IsOid r.oid
    → IsTree root
    → height root ≤ 64
    → Advances lua_pcall
    → mib_tree_search_next lua_pcall var view orig_oid root ≡ next r
    → Follows view orig_oid r
unfolding end_of_view
search_next-Follows lua_pcall var view orig_oid root r sv so hr h low adv f =
    let inside = is_pos (oid_cover view orig_oid) in
    let before = is_neg (oid_cmp orig_oid view) in
    elim (Option-cases (mib_tree_search lua_pcall 0xa0 var view view root)) [
      | inr (at, e) ↦ answered_greater lua_pcall var view orig_oid root at r sv so hr h low adv e f
      | inl n ↦ elim (Bool-cases (inside || before)) [
        | inl t ↦
            (let q : failed ≡ next r = sym (failed_run lua_pcall var view orig_oid root t n) ∙ f in
              cc)
        | inr g ↦
            (let q : next (end_of_view orig_oid var) ≡ next r =
                sym (
                  behind_run lua_pcall var view orig_oid root (or_left inside before g)
                    (or_right inside before g))
                ∙ f in
              let s : end_of_view orig_oid var ≡ r = cc in
              inl (ap (λ (x : NextRes). x.oid) (sym s), ap (λ (x : NextRes). x.var.tag) (sym s)))
      ]
    ]
