-- ===== src/View/Unreg.antt =====
-- The end of `mib_community_unreg` and `mib_user_unreg` of core/mib_view.c.
use smartsnmp.Base.{
  ℕ, ◌+◌, List, [], ◌∷◌, ◌≡◌, inl, inr, refl, sym, ◌∙◌, true, false, none, some, Bool-cases, All,
  length, if◌then◌else◌,
}
use smartsnmp.View.{Community, Aces, Store, same_name, mib_community_search}
use smartsnmp.View.Access.{mib_community_unreg}
use smartsnmp.View.Names.{search_here, search_later, same→eq, same_refl}
use smartsnmp.View.Revoke.{without, Ends, unreg_loop-without}

without_drop :
    (name : List ℕ) (c : Community) (cs : List Community)
    → same_name c.name name ≡ true
    → without name (c ∷ cs) ≡ without name cs
unfolding without
without_drop name c cs e = rw (without, e) refl

without_keep :
    (name : List ℕ) (c : Community) (cs : List Community)
    → same_name c.name name ≡ false
    → without name (c ∷ cs) ≡ c ∷ without name cs
unfolding without
without_keep name c cs e = rw (without, e) refl

search-without :
    (name n : List ℕ) (cs : List Community)
    → mib_community_search n (without name cs)
      ≡ (if same_name name n then none else mib_community_search n cs)
search-without name n [] =
    unfold without mib_community_search in
    elim (Bool-cases (same_name name n)) [ inl t ↦ rw t refl | inr f ↦ rw f refl ]
search-without name n (c ∷ cs) = elim (Bool-cases (same_name c.name name)) [
  | inl t ↦
      rw (without_drop name c cs t, search-without name n cs)
        (elim (Bool-cases (same_name name n)) [
          | inl u ↦ rw u refl
          | inr u ↦
              let v : same_name c.name n ≡ false = rw (same→eq c.name name t) u in
              rw (u, search_later n c cs v) refl
        ])
  | inr f ↦ rw (without_keep name c cs f) (elim (Bool-cases (same_name c.name n)) [
    | inl u ↦
        let v : same_name name n ≡ false = differs u f in
        rw (v, search_here n c (without name cs) u, search_here n c cs u) refl
    | inr u ↦
        rw (search_later n c (without name cs) u, search_later n c cs u) (search-without name n cs)
  ])
]
  where
    differs : same_name c.name n ≡ true → same_name c.name name ≡ false → same_name name n ≡ false
    differs u f = elim (Bool-cases (same_name name n)) [
      | inl v ↦
          let p : c.name ≡ name = same→eq c.name n u ∙ sym (same→eq name n v) in
          let q : same_name c.name name ≡ true = rw p (same_refl name) in cc
      | inr v ↦ v
    ]

-- If no community of the name keeps read-only views, `mib_community_unreg` returns, and afterwards
-- the name is unknown and every other name is found as before. The attribute MIB_ACES_READ always does.
pub community_unreg-search :
    (name : List ℕ) (a : Aces) (st : Store) (extra : ℕ)
    → All (Ends name a) st.mib_communities
    → (st' : Store) × (mib_community_unreg (length st.mib_communities + 1 + extra) name a st
        ≡ some st')
      × ((n : List ℕ)
          → mib_community_search n st'.mib_communities
            ≡ (if same_name name n then none else mib_community_search n st.mib_communities))
unfolding mib_community_unreg
community_unreg-search name a st extra h = (
  record {
    mib_views = st.mib_views;
    mib_communities = without name st.mib_communities;
    mib_users = st.mib_users;
  },
  rw (mib_community_unreg, unreg_loop-without name a st.mib_communities extra h) refl,
  λ n. search-without name n st.mib_communities,
)
