-- ===== src/View.antt =====
-- Views and their communities and users, core/mib_view.c and core/mib.h.
-- An entry of a view list (`struct community_view`) is the view that it points to. The back links
-- from a view to its communities and users are written but never read, and left out.
pub mod Access
pub mod Covering
pub mod Filter
pub mod Bind
pub mod Names
pub mod Grants
pub mod Register
pub mod Covered
pub mod Revoke
pub mod Unreg
pub mod Sorted
pub mod Keeps
pub mod Walk
use smartsnmp.Base.{ℕ, zero, suc, List, [], ◌∷◌, Option, none, some, Bool, true, false, ◌&&◌}
use smartsnmp.Base.{if◌then◌else◌, ◌==◌, length}
use smartsnmp.Base.Int.{is_zero, is_neg, is_pos}
use smartsnmp.Oid.{oid_cmp, oid_cover}

-- `struct mib_view`. The address stands for the pointer, which the code compares; it is the number
-- of views made before, and no view is ever freed.
pub record View : Type 0 where
  pub addr : ℕ
  pub oid : List ℕ

-- `struct mib_community`, and `struct mib_user`, which has the same fields. The functions on users are
-- those on communities under other names, so one model stands for both.
pub record Community : Type 0 where
  pub name : List ℕ
  pub ro_views : List View
  pub rw_views : List View

-- `MIB_ACES_READ`, `MIB_ACES_WRITE`
pub data Aces : Type 0 where
  aces_read : Aces
  aces_write : Aces

-- The three global lists.
pub record Store : Type 0 where
  pub mib_views : List View
  pub mib_communities : List Community
  pub mib_users : List Community

-- `!strcmp(a, b)` on the bytes of two names.
unfoldable pub same_name : List ℕ → List ℕ → Bool
same_name [] [] = true
same_name [] (y ∷ b) = false
same_name (x ∷ a) [] = false
same_name (x ∷ a) (y ∷ b) = (x == y) && same_name a b

unfoldable pub mib_view_search : List ℕ → List View → Option View
mib_view_search oid [] = none
mib_view_search oid (v ∷ vs) =
    let rest = mib_view_search oid vs in if is_zero (oid_cmp v.oid oid) then some v else rest

unfoldable pub view_create : List ℕ → List View → View × List View
unfolding mib_view_search
view_create oid vs = elim (mib_view_search oid vs) [
  | some v ↦ (v, vs)
  | none ↦ (record { addr = length vs; oid = oid }, record { addr = length vs; oid = oid } ∷ vs)
]

unfoldable pub mib_community_search : List ℕ → List Community → Option Community
mib_community_search name [] = none
mib_community_search name (c ∷ cs) =
    let rest = mib_community_search name cs in if same_name c.name name then some c else rest

-- The community, and the list that holds it.
unfoldable pub community_create : List ℕ → List Community → Community × List Community
unfolding mib_community_search
community_create name cs = elim (mib_community_search name cs) [
  | some c ↦ (c, cs)
  | none ↦ (
    record { name = name; ro_views = []; rw_views = [] },
    record { name = name; ro_views = []; rw_views = [] } ∷ cs,
  )
]

-- Whether a view covers `oid`, and the list without the views that `oid` covers, up to there.
unfoldable pub community_view_filter : List ℕ → List View → Bool × List View
community_view_filter oid [] = (false, [])
community_view_filter oid (v ∷ vs) =
    let rest = community_view_filter oid vs in
    if is_pos (oid_cover v.oid oid)
    then (true, v ∷ vs)
    else (if is_neg (oid_cover v.oid oid) then rest else (rest.0, v ∷ rest.1))

unfoldable pub community_view_add : List ℕ → View → List View → List View
community_view_add oid v [] = v ∷ []
community_view_add oid v (v1 ∷ vs) =
    let rest = community_view_add oid v vs in
    if is_pos (oid_cmp v1.oid oid) then v ∷ v1 ∷ vs else v1 ∷ rest

unfoldable pub views_of : Aces → Community → List View
views_of aces_read c = c.ro_views
views_of aces_write c = c.rw_views

unfoldable pub set_views : Aces → List View → Community → Community
set_views aces_read vs c = record { name = c.name; ro_views = vs; rw_views = c.rw_views }
set_views aces_write vs c = record { name = c.name; ro_views = c.ro_views; rw_views = vs }

-- `community_view_bind` on the list of the attribute and `mib_views`.
unfoldable pub bind_views : List ℕ → List View → List View → List View × List View
unfolding community_view_filter view_create community_view_add
bind_views oid views all =
    let (filtered, kept) = community_view_filter oid views in
    let (v, all') = view_create oid all in
    if filtered then (kept, all) else (community_view_add oid v kept, all')

unfoldable pub community_view_bind : List ℕ → Aces → Community × List View → Community × List View
unfolding bind_views views_of set_views
community_view_bind oid attribute (c, all) =
    let (views, all') = bind_views oid (views_of attribute c) all in
    (set_views attribute views c, all')

-- The changes through the pointer to a community: the first one of its name.
unfoldable pub put_community : Community → List Community → List Community
put_community c [] = []
put_community c (d ∷ cs) =
    let rest = put_community c cs in if same_name d.name c.name then c ∷ cs else d ∷ rest

-- Write access brings read access with it.
unfoldable pub bind_all : List ℕ → Aces → Community × List View → Community × List View
unfolding community_view_bind
bind_all oid aces_read p = community_view_bind oid aces_read p
bind_all oid aces_write p = community_view_bind oid aces_read (community_view_bind oid aces_write p)

-- `mib_community_reg` on the communities and `mib_views`.
unfoldable pub reg :
    List ℕ → List ℕ → Aces → List Community → List View → List Community × List View
unfolding community_create bind_all put_community
reg oid name attribute cs all =
    let (c, cs') = community_create name cs in
    let (c', all') = bind_all oid attribute (c, all) in (put_community c' cs', all')

unfoldable pub mib_community_reg : List ℕ → List ℕ → Aces → Store → Store
unfolding reg
mib_community_reg oid community attribute st =
    let (cs, all) = reg oid community attribute st.mib_communities st.mib_views in
    record { mib_views = all; mib_communities = cs; mib_users = st.mib_users }

unfoldable pub mib_user_reg : List ℕ → List ℕ → Aces → Store → Store
unfolding reg
mib_user_reg oid user attribute st =
    let (us, all) = reg oid user attribute st.mib_users st.mib_views in
    record { mib_views = all; mib_communities = st.mib_communities; mib_users = us }
