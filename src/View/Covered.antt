-- ===== src/View/Covered.antt =====
-- The store of core/mib_view.c after a registration, and what it covers.
use smartsnmp.Base.{ℕ, List, ◌≡◌, ◌⊎◌, ◌↔◌, inl, inr, true, All}
use smartsnmp.Oid.Compare.{IsOid}
use smartsnmp.Oid.Cover.{Covers}
use smartsnmp.View.{
  View, Community, Aces, Store, mib_community_search, reg, mib_community_reg, mib_user_reg,
}
use smartsnmp.View.Access.{mib_user_view_cover, mib_user_search, mib_community_view_cover}
use smartsnmp.View.Covering.{AllOids}
use smartsnmp.View.Grants.{IsCommunity, IsStore, Includes, chain}
use smartsnmp.View.Register.{reg-Registered, cover_iff}

-- A registration of an object identifier of 32-bit words keeps those of the store such, for
-- communities and for users.
pub reg-IsStore :
    (oid name : List ℕ) (b : Aces) (st : Store)
    → IsOid oid
    → IsStore st
    → IsStore (mib_community_reg oid name b st) × IsStore (mib_user_reg oid name b st)
unfolding mib_community_reg mib_user_reg
reg-IsStore oid name b st h hs =
    let r = reg-Registered oid name b st.mib_communities st.mib_views h hs.communities hs.views in
    let u = reg-Registered oid name b st.mib_users st.mib_views h hs.users hs.views in
    (
      record { views = r.views_ok; communities = r.communities_ok; users = hs.users },
      record { views = u.views_ok; communities = hs.communities; users = u.communities_ok },
    )

-- The cover test after a registration, for either list.
reg-cover :
    (oid name : List ℕ) (b : Aces) (cs : List Community) (all : List View) (n : List ℕ) (a : Aces)
    (q : List ℕ)
    → IsOid oid
    → All IsCommunity cs
    → AllOids all
    → IsOid q
    → (mib_community_view_cover (mib_community_search n (reg oid name b cs all).0) a q ≡ true) ↔ (
        ((name ≡ n) × Includes b a × Covers oid q)
        ⊎ (mib_community_view_cover (mib_community_search n cs) a q ≡ true))
reg-cover oid name b cs all n a q h hc ha hq =
    let r = reg-Registered oid name b cs all h hc ha in
    let old = cover_iff n cs a q hc hq in
    chain (cover_iff n _ a q r.communities_ok hq) (
      chain (r.access n a q) (
        λ g. elim g [ inl k ↦ inl k | inr k ↦ inr (old.1 k) ],
        λ g. elim g [ inl k ↦ inl k | inr k ↦ inr (old.0 k) ],
      ))

-- After `mib_community_reg`, on a well-formed store, exactly what was covered for a community and
-- attribute before is covered, and for the community named also all at `oid` and below it: for reading,
-- and for writing too if the registration was for writing.
pub community_reg-cover :
    (oid name : List ℕ) (b : Aces) (st : Store) (n : List ℕ) (a : Aces) (q : List ℕ)
    → IsOid oid
    → IsStore st
    → IsOid q
    → (mib_community_view_cover
          (mib_community_search n (mib_community_reg oid name b st).mib_communities)
          a
          q
        ≡ true)
      ↔ (((name ≡ n) × Includes b a × Covers oid q)
          ⊎ (mib_community_view_cover (mib_community_search n st.mib_communities) a q ≡ true))
unfolding mib_community_reg
community_reg-cover oid name b st n a q h hs hq =
    reg-cover oid name b st.mib_communities st.mib_views n a q h hs.communities hs.views hq

-- After `mib_user_reg`, on a well-formed store, exactly what was covered for a user and attribute before
-- is covered, and for the user named also all at `oid` and below it: for reading, and for writing too if
-- the registration was for writing.
pub user_reg-cover :
    (oid name : List ℕ) (b : Aces) (st : Store) (n : List ℕ) (a : Aces) (q : List ℕ)
    → IsOid oid
    → IsStore st
    → IsOid q
    → (mib_user_view_cover (mib_user_search n (mib_user_reg oid name b st).mib_users) a q ≡ true)
      ↔ (((name ≡ n) × Includes b a × Covers oid q)
          ⊎ (mib_user_view_cover (mib_user_search n st.mib_users) a q ≡ true))
unfolding mib_user_reg mib_user_view_cover mib_user_search
user_reg-cover oid name b st n a q h hs hq =
    reg-cover oid name b st.mib_users st.mib_views n a q h hs.users hs.views hq
