-- ===== src/Snmp/MsgProc/Loop.antt =====
-- The loop over the views against a recursion over the list of the views.
use mathlib.Core.List.{append_assoc}
use smartsnmp.Base.{
  ℕ, suc, ◌+◌, ◌≡◌, ◌∙◌, refl, sym, ap, subst, List, [], ◌∷◌, ◌++◌, Option, none, some, length,
  arith, if◌then◌else◌, Bool-cases, Option-cases, inl, inr,
}
use smartsnmp.Mib.Search.{mib_tree_search}
use smartsnmp.View.{View, Community, Aces, views_of}
use smartsnmp.View.Access.{next_view, mib_community_next_view, mib_user_next_view}
use smartsnmp.View.Filter.{Pairwise}
use smartsnmp.View.Walk.{Differ, after_next, after_last}
use smartsnmp.Snmp.Packet.{Datagram, is_v3}
use smartsnmp.Snmp.MsgProc.{Agent, RetOid, gotcha, next_of, search_views}

module _ (agent : Agent) (request : ℕ) (oid : List ℕ) where
  -- One view after the other, until one answers or the identifier is ahead of it.
  unfoldable pub search_list : List View → RetOid → Option RetOid
  search_list [] ret = some record { id = oid; err_stat = ret.err_stat; var = ret.var }
  search_list (w ∷ ws) ret =
      elim (mib_tree_search agent.lua_pcall request ret.var w.oid oid agent.tree) [
        | none ↦ none
        | some r ↦
            let found : RetOid = record { id = oid; err_stat = r.err_stat; var = r.var } in
            let rest = search_list ws found in if gotcha oid w r then some found else rest
      ]

  module _ (fuel : ℕ) (next : Option View → Option View) (v : Option View) (ret : RetOid) where
    views_end :
        next v ≡ none → search_views agent request oid (suc fuel) next v ret ≡ search_list [] ret
    unfolding search_list search_views
    views_end e = rw (search_views, e) refl

    views_step :
        (w : View) (ws : List View)
        → next v ≡ some w
        → ((found : RetOid)
            → search_views agent request oid fuel next (some w) found ≡ search_list ws found)
        → search_views agent request oid (suc fuel) next v ret ≡ search_list (w ∷ ws) ret
    unfolding search_list search_views
    views_step w ws e h =
        elim (Option-cases (mib_tree_search agent.lua_pcall request ret.var w.oid oid agent.tree)) [
          | inl s ↦ rw (search_views, search_list, e, s) refl
          | inr (r, s) ↦
              rw
                (
                  search_views,
                  search_list,
                  e,
                  s,
                  h record { id = oid; err_stat = r.err_stat; var = r.var },
                )
                refl
        ]

  views_from :
      (pre : List View) (v : View) (post : List View) (extra : ℕ) (next : Option View → Option View)
      (ret : RetOid)
      → Pairwise Differ (pre ++ (v ∷ post))
      → ((u : Option View) → next u ≡ next_view u (pre ++ (v ∷ post)))
      → search_views agent request oid (length post + 1 + extra) next (some v) ret
        ≡ search_list post ret
  views_from pre v [] extra next ret h n =
      let one : 1 + extra ≡ suc extra = omega arith in
      rw one
        (views_end extra next (some v) ret (n (some v) ∙ (unfold next_view in after_last pre v h)))
  views_from pre v (x ∷ post) extra next ret h n =
      let more : suc (length post) + 1 + extra ≡ suc (length post + 1 + extra) = omega arith in
      let shift : pre ++ (v ∷ x ∷ post) ≡ (pre ++ (v ∷ [])) ++ (x ∷ post) =
        sym (append_assoc pre (v ∷ []) (x ∷ post)) in
      rw more (
        views_step (length post + 1 + extra) next (some v) ret x post
          (n (some v) ∙ (unfold next_view in after_next pre v x post h))
          λ found.
            views_from (pre ++ (v ∷ [])) x post extra next found (subst (Pairwise Differ) shift h)
              λ u. n u ∙ ap (next_view u) shift)

  -- On a list without two entries of one view the loop ends, and asks each view in turn.
  pub search_views-list :
      (vs : List View) (extra : ℕ) (next : Option View → Option View) (ret : RetOid)
      → Pairwise Differ vs
      → ((u : Option View) → next u ≡ next_view u vs)
      → search_views agent request oid (length vs + 1 + extra) next none ret ≡ search_list vs ret
  search_views-list [] extra next ret h n =
      let one : 1 + extra ≡ suc extra = omega arith in
      rw one (views_end extra next none ret (n none ∙ (unfold next_view in refl)))
  search_views-list (v ∷ vs) extra next ret h n =
      let more : suc (length vs) + 1 + extra ≡ suc (length vs + 1 + extra) = omega arith in
      rw more (
        views_step (length vs + 1 + extra) next none ret v vs (n none ∙ (unfold next_view in refl))
          λ found. views_from [] v vs extra next found h n)

pub next_of-views :
    (sdg : Datagram) (c : Community) (attribute : Aces) (u : Option View)
    → next_of sdg (some c) attribute u ≡ next_view u (views_of attribute c)
unfolding next_of mib_community_next_view mib_user_next_view
next_of-views sdg c attribute u = elim (Bool-cases (is_v3 sdg.version.val)) [
  | inl e ↦ rw (next_of, e) refl
  | inr e ↦ rw (next_of, e) refl
]
