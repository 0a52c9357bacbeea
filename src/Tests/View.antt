-- ===== src/Tests/View.antt =====
-- The views, communities and users of core/mib_view.c at a concrete store.
use smartsnmp.Base.{
  ℕ, ◌+◌, List, [], ◌∷◌, ◌≡◌, ◌⊎◌, ◌↔◌, refl, true, none, some, arith, if◌then◌else◌,
}
use smartsnmp.Oid.{oid_cmp, oid_cover}
use smartsnmp.Oid.Compare.{IsOid, IsSmall}
use smartsnmp.Oid.Cover.{Covers}
use smartsnmp.View.{
  View, Community, aces_read, aces_write, Store, same_name, mib_view_search, mib_community_search,
  view_create, community_create, community_view_filter, community_view_add, bind_views,
  community_view_bind, bind_all, put_community, reg, mib_community_reg, mib_user_reg, views_of,
  set_views,
}
use smartsnmp.View.Access.{mib_community_view_cover, mib_community_unreg}
use smartsnmp.View.Grants.{IsStore, Includes}
use smartsnmp.View.Covered.{community_reg-cover}
use smartsnmp.View.Keeps.{IsOrdered, reg-IsOrdered}
use smartsnmp.View.Revoke.{unreg_write_hangs}
use smartsnmp.View.Unreg.{community_unreg-search}

abbrev v13 : View
v13 = record { addr = 0; oid = 1 ∷ 3 ∷ [] }

abbrev v15 : View
v15 = record { addr = 1; oid = 1 ∷ 5 ∷ [] }

abbrev pub_name : List ℕ
pub_name = 112 ∷ []

-- The name of one byte 112 may read 1.3 and 1.5, and write 1.5.
abbrev public : Community
public = record { name = pub_name; ro_views = v13 ∷ v15 ∷ []; rw_views = v15 ∷ [] }

abbrev store : Store
store = record { mib_views = v15 ∷ v13 ∷ []; mib_communities = public ∷ []; mib_users = [] }

-- Write access to 1 replaces both.
abbrev v1 : View
v1 = record { addr = 2; oid = 1 ∷ [] }

abbrev wider : Store
wider = record {
  mib_views = v1 ∷ v15 ∷ v13 ∷ [];
  mib_communities = record { name = pub_name; ro_views = v1 ∷ []; rw_views = v1 ∷ [] } ∷ [];
  mib_users = [];
}

reg_run : mib_community_reg (1 ∷ []) pub_name aces_write store ≡ wider
unfolding mib_community_reg reg community_create mib_community_search same_name bind_all
    community_view_bind bind_views community_view_filter oid_cover oid_cmp view_create
    mib_view_search community_view_add put_community views_of set_views
reg_run = refl

IsSmall-sample : IsSmall (1 ∷ 4 ∷ [])
IsSmall-sample = record { words = omega arith; short = omega arith }

IsOid-sample : IsOid (1 ∷ 4 ∷ [])
IsOid-sample = record { words = omega arith; short = omega arith }

store-IsOrdered : IsOrdered store
store-IsOrdered = record {
  views = (small15, (small13, tt));
  communities = (
    record {
      ro = record { small = (small13, (small15, tt)); views = ground arith };
      rw_ = record { small = (small15, tt); views = ground arith };
    },
    tt,
  );
  users = tt;
}
  where
    small13 : IsSmall (1 ∷ 3 ∷ [])
    small13 = record { words = omega arith; short = omega arith }

    small15 : IsSmall (1 ∷ 5 ∷ [])
    small15 = record { words = omega arith; short = omega arith }

store-IsStore : IsStore store
store-IsStore = record {
  views = (oid15, (oid13, tt));
  communities = (record { ro = (oid13, (oid15, tt)); rw_ = (oid15, tt) }, tt);
  users = tt;
}
  where
    oid13 : IsOid (1 ∷ 3 ∷ [])
    oid13 = record { words = omega arith; short = omega arith }

    oid15 : IsOid (1 ∷ 5 ∷ [])
    oid15 = record { words = omega arith; short = omega arith }

reg-IsOrdered_example :
    IsOrdered (mib_community_reg (1 ∷ 4 ∷ []) pub_name aces_write store)
    × IsOrdered (mib_user_reg (1 ∷ 4 ∷ []) pub_name aces_write store)
reg-IsOrdered_example =
    reg-IsOrdered (1 ∷ 4 ∷ []) pub_name aces_write store IsSmall-sample store-IsOrdered

community_reg-cover_example :
    (mib_community_view_cover
        (mib_community_search pub_name
          (mib_community_reg (1 ∷ 4 ∷ []) pub_name aces_read store).mib_communities)
        aces_write
        (1 ∷ 4 ∷ [])
      ≡ true)
    ↔ (((pub_name ≡ pub_name) × Includes aces_read aces_write × Covers (1 ∷ 4 ∷ []) (1 ∷ 4 ∷ []))
        ⊎ (mib_community_view_cover
              (mib_community_search pub_name (public ∷ []))
              aces_write
              (1 ∷ 4 ∷ [])
            ≡ true))
community_reg-cover_example =
    community_reg-cover (1 ∷ 4 ∷ []) pub_name aces_read store pub_name aces_write (1 ∷ 4 ∷ [])
      IsOid-sample store-IsStore IsOid-sample

unreg_write_hangs_example :
    mib_community_unreg 1000 pub_name aces_write
      (mib_community_reg (1 ∷ 4 ∷ []) pub_name aces_write store)
    ≡ none
unreg_write_hangs_example =
    unreg_write_hangs (1 ∷ 4 ∷ []) pub_name aces_write store IsOid-sample store-IsStore 1000

community_unreg-search_example :
    (st' : Store) × (mib_community_unreg (1 + 1 + 7) pub_name aces_read store ≡ some st')
    × ((n : List ℕ)
        → mib_community_search n st'.mib_communities
          ≡ (if same_name pub_name n then none else mib_community_search n (public ∷ [])))
community_unreg-search_example = community_unreg-search pub_name aces_read store 7 (tt, tt)
