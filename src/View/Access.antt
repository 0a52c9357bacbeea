-- ===== src/View/Access.antt =====
-- Removal and the tests of access in core/mib_view.c, for communities and users.
use smartsnmp.Base.{ℕ, zero, suc, List, [], ◌∷◌, Option, none, some, Bool, true, false, ◌&&◌}
use smartsnmp.Base.{if◌then◌else◌, ◌==◌}
use smartsnmp.Base.Int.{is_pos}
use smartsnmp.Oid.{oid_cover}
use smartsnmp.View.{
  View, Community, Aces, aces_read, aces_write, Store, same_name, views_of, mib_community_search,
}

unfoldable pub list_empty : List View → Bool
list_empty [] = true
list_empty (v ∷ vs) = false

-- `community_view_remove` on the lists that the attribute names.
unfoldable pub remove_views : Aces → Community → Community
remove_views aces_read c = record { name = c.name; ro_views = []; rw_views = [] }
remove_views aces_write c = record { name = c.name; ro_views = c.ro_views; rw_views = [] }

-- The loop of `mib_community_unreg` on fuel, `none` where it runs out. A community that keeps views is
-- written back, and the loop goes on at it, as `cc` is not moved.
unfoldable pub unreg_loop : ℕ → List ℕ → Aces → List Community → Option (List Community)
unfolding same_name remove_views list_empty
unreg_loop zero name attribute cs = none
unreg_loop (suc fuel) name attribute [] = some []
unreg_loop (suc fuel) name attribute (c ∷ cs) =
    let c' = remove_views attribute c in
    let gone = unreg_loop fuel name attribute cs in
    let again = unreg_loop fuel name attribute (c' ∷ cs) in
    let next : Option (List Community) = elim gone [ none ↦ none | some r ↦ some (c ∷ r) ] in
    if same_name c.name name
    then (if list_empty c'.ro_views && list_empty c'.rw_views then gone else again)
    else next

unfoldable pub mib_community_unreg : ℕ → List ℕ → Aces → Store → Option Store
unfolding unreg_loop
mib_community_unreg fuel community attribute st =
    elim (unreg_loop fuel community attribute st.mib_communities) [
      | none ↦ none
      | some cs ↦
          some record { mib_views = st.mib_views; mib_communities = cs; mib_users = st.mib_users }
    ]

unfoldable pub mib_user_unreg : ℕ → List ℕ → Aces → Store → Option Store
unfolding unreg_loop
mib_user_unreg fuel user attribute st = elim (unreg_loop fuel user attribute st.mib_users) [
  | none ↦ none
  | some us ↦
      some record { mib_views = st.mib_views; mib_communities = st.mib_communities; mib_users = us }
]

-- The loop of `mib_community_view_cover`.
unfoldable pub view_cover : List View → List ℕ → Bool
view_cover [] oid = false
view_cover (v ∷ vs) oid =
    let rest = view_cover vs oid in if is_pos (oid_cover v.oid oid) then true else rest

unfoldable pub mib_community_view_cover : Option Community → Aces → List ℕ → Bool
unfolding view_cover views_of
mib_community_view_cover none attribute oid = false
mib_community_view_cover (some c) attribute oid = view_cover (views_of attribute c) oid

-- The loop of `mib_community_next_view` for a view that is not NULL.
unfoldable pub view_after : View → List View → Option View
view_after v [] = none
view_after v (w ∷ []) = none
view_after v (w ∷ x ∷ vs) =
    let rest = view_after v (x ∷ vs) in if v.addr == w.addr then some x else rest

unfoldable pub next_view : Option View → List View → Option View
unfolding view_after
next_view none [] = none
next_view none (w ∷ vs) = some w
next_view (some v) vs = view_after v vs

unfoldable pub mib_community_next_view : Option Community → Aces → Option View → Option View
unfolding next_view views_of
mib_community_next_view none attribute v = none
mib_community_next_view (some c) attribute v = next_view v (views_of attribute c)

unfoldable pub mib_user_search : List ℕ → List Community → Option Community
unfolding mib_community_search
mib_user_search user us = mib_community_search user us

unfoldable pub mib_user_view_cover : Option Community → Aces → List ℕ → Bool
unfolding mib_community_view_cover
mib_user_view_cover u attribute oid = mib_community_view_cover u attribute oid

unfoldable pub mib_user_next_view : Option Community → Aces → Option View → Option View
unfolding mib_community_next_view
mib_user_next_view u attribute v = mib_community_next_view u attribute v
