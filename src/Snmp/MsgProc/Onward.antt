-- ===== src/Snmp/MsgProc/Onward.antt =====
-- What GETNEXT over the views of core/snmp_msg_proc.c answers.
use smartsnmp.Base.{
  ℕ, zero, suc, ◌≡◌, ◌≤◌, ◌∙◌, ◌⊎◌, refl, sym, ap, subst, inl, inr, none, some, Bool-cases, Option,
  Option-cases,
}
use smartsnmp.Base.{List, [], ◌∷◌, All, ◌==◌}
use smartsnmp.Oid.Compare.{IsOid, IsSmall, LexLt}
use smartsnmp.Oid.Cover.{Covers}
use smartsnmp.Mib.Node.Spec.{IsTree}
use smartsnmp.Mib.Delete.Walk.{height}
use smartsnmp.Mib.SearchNext.{NextRes, Next, out_of_fuel, failed, next, mib_tree_search_next}
use smartsnmp.Mib.SearchNext.Greater.{Advances}
use smartsnmp.Mib.SearchNext.Ahead.{search_next-Follows}
use smartsnmp.View.{View, Community, aces_read, views_of}
use smartsnmp.View.Access.{mib_user_next_view, mib_community_next_view, next_view, view_after}
use smartsnmp.View.Covering.{Grants}
use smartsnmp.Snmp.Packet.{is_v3, Datagram}
use smartsnmp.Snmp.MsgProc.{Agent, RetOid, principal, next_of, rounds, refuse}
use smartsnmp.Snmp.MsgProc.Access.{granted}
use smartsnmp.Snmp.MsgProc.Loop.{next_of-views}
use smartsnmp.Snmp.MsgProc.GetNext.{next_views, mib_getnext}
use smartsnmp.Snmp.MsgProc.Sizes.{some-inj}

-- The views that the iteration gives are those of the list.
view_after-All :
    (P : View → Type 0) (u : View) (vs : List View) (w : View)
    → All P vs
    → view_after u vs ≡ some w
    → P w
unfolding view_after
view_after-All P u [] w h e = cc
view_after-All P u (v ∷ []) w h e = cc
view_after-All P u (v ∷ x ∷ vs) w h e = elim (Bool-cases (u.addr == v.addr)) [
  | inl t ↦ (let q : some x ≡ some w = rw t at e in let q' : x ≡ w = cc in subst P q' h.1.0)
  | inr f ↦ view_after-All P u (x ∷ vs) w h.1 (rw f at e)
]

next_view-All :
    (P : View → Type 0) (u : Option View) (vs : List View) (w : View)
    → All P vs
    → next_view u vs ≡ some w
    → P w
unfolding next_view
next_view-All P none [] w h e = cc
next_view-All P none (v ∷ vs) w h e = let q : v ≡ w = cc in subst P q h.0
next_view-All P (some u) vs w h e = view_after-All P u vs w h e

Next-cases : (x : Next) → (x ≡ out_of_fuel) ⊎ ((x ≡ failed) ⊎ ((r : NextRes) × (x ≡ next r)))
Next-cases out_of_fuel = inl refl
Next-cases failed = inr (inl refl)
Next-cases (next r) = inr (inr (r, refl))

-- A view whose objects the list grants.
abbrev Serves : List View → View → Type 0
Serves all w = IsSmall w.oid × ((oid : List ℕ) → Covers w.oid oid → Grants all oid)

All-serve :
    (vs all : List View)
    → All (λ v. IsSmall v.oid) vs
    → ((oid : List ℕ) → Grants vs oid → Grants all oid)
    → All (Serves all) vs
All-serve [] all h g = tt
All-serve (v ∷ vs) all h g =
    ((h.0, λ oid c. g oid (inl c)), All-serve vs all h.1 λ oid k. g oid (inr k))

-- The answer for `oid`: itself, or an object behind it that the views grant.
abbrev pub Onwards : List View → List ℕ → RetOid → Type 0
Onwards vs oid ret = (ret.id ≡ oid) ⊎ (LexLt oid ret.id × Grants vs ret.id)

module _ (agent : Agent) (oid : List ℕ) (so : IsSmall oid) (h : IsTree agent.tree)
    (low : height agent.tree ≤ 64) (adv : Advances agent.lua_pcall) (vs : List View) where
  -- `mib_tree_search_next` on each of the views that the iteration gives.
  views-Onwards :
      (fuel : ℕ) (next_view : Option View → Option View) (v : Option View) (ret ret' : RetOid)
      → ((u : Option View) (w : View) → next_view u ≡ some w → Serves vs w)
      → IsOid ret'.id
      → next_views agent oid fuel next_view v ret ≡ some ret'
      → Onwards vs oid ret'
  unfolding next_views
  views-Onwards zero nv v ret ret' s ho e = cc
  views-Onwards (suc fuel) nv v ret ret' s ho e = elim (Option-cases (nv v)) [
    | inl n ↦
        (let q = rw (next_views, n) at e in
          inl (sym (ap (λ (t : RetOid). t.id) (some-inj _ ret' q))))
    | inr (w, n) ↦
        (let q = rw (next_views, n) at e in
          elim (Next-cases (mib_tree_search_next agent.lua_pcall ret.var w.oid oid agent.tree)) [
            | inl f ↦ (let q' = rw f at q in cc)
            | inr (inl f) ↦ (let q' = rw f at q in cc)
            | inr (inr (r, f)) ↦
                (let q' = rw f at q in
                  let found : RetOid = record { id = r.oid; err_stat = r.err_stat; var = r.var } in
                  elim (Bool-cases (r.var.tag == 0x82)) [
                    | inl t ↦ views-Onwards fuel nv (some w) found ret' s ho (rw t at q')
                    | inr t ↦
                        let z : some found ≡ some ret' = rw t at q' in
                        let same : r.oid ≡ ret'.id =
                          ap (λ (x : RetOid). x.id) (some-inj found ret' z) in
                        let (sw, grants) = s v w n in
                        elim (search_next-Follows agent.lua_pcall ret.var w.oid oid agent.tree r sw
                          so (subst IsOid (sym same) ho) h low adv f) [
                            | inl (here, last) ↦ inl (sym same ∙ here)
                            | inr (lt, c, short, valid) ↦
                                inr (
                                  subst (LexLt oid) same lt,
                                  subst (Grants vs) same (grants r.oid c),
                                )
                          ]
                  ])
          ])
  ]

next_of_nobody : (sdg : Datagram) (u : Option View) → next_of sdg none aces_read u ≡ none
unfolding next_of mib_user_next_view mib_community_next_view
next_of_nobody sdg u = elim (Bool-cases (is_v3 sdg.version.val)) [
  | inl e ↦ rw (next_of, e) refl
  | inr e ↦ rw (next_of, e) refl
]

-- For an object identifier of elements below 2 ^ 31 and views of such, on a sorted tree of at most 64 levels and
-- handlers that advance, what `mib_getnext` answers is the identifier that was asked for, or a strictly greater one
-- that a read view of the community or user covers.
pub mib_getnext-Onwards :
    (agent : Agent) (sdg : Datagram) (oid : List ℕ) (ret ret' : RetOid)
    → IsSmall oid
    → IsTree agent.tree
    → height agent.tree ≤ 64
    → Advances agent.lua_pcall
    → All (λ v. IsSmall v.oid) (granted aces_read (principal agent.store sdg))
    → IsOid ret'.id
    → mib_getnext agent sdg oid ret ≡ some ret'
    → Onwards (granted aces_read (principal agent.store sdg)) oid ret'
unfolding mib_getnext
mib_getnext-Onwards agent sdg oid ret ret' so h low adv small ho e =
    views-Onwards agent oid so h low adv (granted aces_read c) (rounds aces_read c)
      (next_of sdg c aces_read) none (refuse c ret) ret' (serves c small) ho e
  where
    c : Option Community
    c = principal agent.store sdg

    serves :
        (c' : Option Community)
        → All (λ v. IsSmall v.oid) (granted aces_read c')
        → (u : Option View) (w : View) → next_of sdg c' aces_read u ≡ some w
        → Serves (granted aces_read c') w
    serves none all u w q = let q' : none ≡ some w = sym (next_of_nobody sdg u) ∙ q in cc
    serves (some k) all u w q =
        next_view-All _ u (views_of aces_read k) w
          (All-serve (views_of aces_read k) (views_of aces_read k) all λ x g. g)
          (sym (next_of-views sdg k aces_read u) ∙ q)
