-- ===== src/View/Keeps.antt =====
-- Registration keeps the lists of core/mib_view.c in order.
use smartsnmp.Base.{ℕ, List, [], inl, inr, sym, subst, Bool-cases, Option-cases, All}
use smartsnmp.Oid.Compare.{IsSmall}
use smartsnmp.View.{
  View, Community, Aces, aces_read, aces_write, Store, mib_view_search, mib_community_search,
  view_create, community_create, community_view_filter, bind_views, community_view_bind, bind_all,
  reg, mib_community_reg, mib_user_reg, views_of, set_views,
}
use smartsnmp.View.Filter.{filter-Filtered}
use smartsnmp.View.Bind.{All-add, bind_covered, bind_new, create-oid, create_found, create_new}
use smartsnmp.View.Names
use smartsnmp.View.Names.{found-All, All-put}
use smartsnmp.View.Sorted.{Small, IsViews, small-IsOid, All-IsSmall, bind-IsViews}

-- The object identifiers of a list are 31-bit words, ascend, and cover none of the next ones.
pub record InOrder (vs : List View) : Type 0 where
  pub small : All Small vs
  pub views : IsViews vs

pub record IsSorted (c : Community) : Type 0 where
  pub ro : InOrder c.ro_views
  pub rw_ : InOrder c.rw_views

pub record IsOrdered (st : Store) : Type 0 where
  pub views : All Small st.mib_views
  pub communities : All IsSorted st.mib_communities
  pub users : All IsSorted st.mib_users

create-Small :
    (oid : List ℕ) (all : List View)
    → IsSmall oid
    → All Small all
    → All Small (view_create oid all).1
create-Small oid all h ha = elim (Option-cases (mib_view_search oid all)) [
  | inl e ↦ rw (create_new oid all e) (h, ha)
  | inr (v, e) ↦ rw (create_found oid all v e) ha
]

bind-Small :
    (oid : List ℕ) (vs all : List View)
    → IsSmall oid
    → All Small vs
    → All Small all
    → All Small (bind_views oid vs all).0 × All Small (bind_views oid vs all).1
bind-Small oid vs all h hs ha =
    let o = small-IsOid oid h in
    let f = filter-Filtered oid vs o (All-IsSmall vs hs) in
    let kept = f.all_kept Small hs in
    let same = (create-oid oid all o (All-IsSmall all ha)).0 in
    elim (Bool-cases (community_view_filter oid vs).0) [
      | inl e ↦ rw (bind_covered oid vs all e) (kept, ha)
      | inr e ↦ rw (bind_new oid vs all e) (
        All-add Small oid (view_create oid all).0 _ (subst IsSmall (sym same) h) kept,
        create-Small oid all h ha,
      )
    ]

bind-InOrder :
    (oid : List ℕ) (vs all : List View)
    → IsSmall oid
    → InOrder vs
    → All Small all
    → InOrder (bind_views oid vs all).0
bind-InOrder oid vs all h hs ha = record {
  small = (bind-Small oid vs all h hs.small ha).0;
  views = bind-IsViews oid vs all h hs.small (All-IsSmall all ha) hs.views;
}

-- A community in order, with `mib_views`.
abbrev Sound : Community × List View → Type 0
Sound p = IsSorted p.0 × All Small p.1

bind-Sound :
    (oid : List ℕ) (b : Aces) (p : Community × List View)
    → IsSmall oid
    → Sound p
    → Sound (community_view_bind oid b p)
unfolding community_view_bind views_of set_views
bind-Sound oid aces_read (c, all) h (hc, ha) = (
  record { ro = bind-InOrder oid c.ro_views all h hc.ro ha; rw_ = hc.rw_ },
  (bind-Small oid c.ro_views all h hc.ro.small ha).1,
)
bind-Sound oid aces_write (c, all) h (hc, ha) = (
  record { ro = hc.ro; rw_ = bind-InOrder oid c.rw_views all h hc.rw_ ha },
  (bind-Small oid c.rw_views all h hc.rw_.small ha).1,
)

bind_all-Sound :
    (oid : List ℕ) (b : Aces) (p : Community × List View)
    → IsSmall oid
    → Sound p
    → Sound (bind_all oid b p)
unfolding bind_all
bind_all-Sound oid aces_read p h s = bind-Sound oid aces_read p h s
bind_all-Sound oid aces_write p h s = bind-Sound oid aces_read _ h (bind-Sound oid aces_write p h s)

blank-IsSorted : (name : List ℕ) → IsSorted record { name = name; ro_views = []; rw_views = [] }
blank-IsSorted name = record {
  ro = record { small = tt; views = tt };
  rw_ = record { small = tt; views = tt };
}

create-IsSorted :
    (name : List ℕ) (cs : List Community)
    → All IsSorted cs
    → IsSorted (community_create name cs).0 × All IsSorted (community_create name cs).1
create-IsSorted name cs h = elim (Option-cases (mib_community_search name cs)) [
  | inl e ↦ rw (Names.create_new name cs e) (blank-IsSorted name, (blank-IsSorted name, h))
  | inr (c, e) ↦ rw (Names.create_old name cs c e) (found-All IsSorted name cs c e h, h)
]

reg-Sound :
    (oid name : List ℕ) (b : Aces) (cs : List Community) (all : List View)
    → IsSmall oid
    → All IsSorted cs
    → All Small all
    → All IsSorted (reg oid name b cs all).0 × All Small (reg oid name b cs all).1
unfolding reg
reg-Sound oid name b cs all h hc ha =
    let m = create-IsSorted name cs hc in
    let s = bind_all-Sound oid b ((community_create name cs).0, all) h (m.0, ha) in
    (All-put IsSorted _ (community_create name cs).1 s.0 m.1, s.1)

-- From the empty lists on, registrations of object identifiers of 31-bit words keep every list of views
-- in ascending order, with no view that covers another.
pub reg-IsOrdered :
    (oid name : List ℕ) (b : Aces) (st : Store)
    → IsSmall oid
    → IsOrdered st
    → IsOrdered (mib_community_reg oid name b st) × IsOrdered (mib_user_reg oid name b st)
unfolding mib_community_reg mib_user_reg
reg-IsOrdered oid name b st h s =
    let c = reg-Sound oid name b st.mib_communities st.mib_views h s.communities s.views in
    let u = reg-Sound oid name b st.mib_users st.mib_views h s.users s.views in
    (
      record { views = c.1; communities = c.0; users = s.users },
      record { views = u.1; communities = s.communities; users = u.0 },
    )
