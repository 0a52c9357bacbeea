-- ===== src/Snmp/MsgProc.antt =====
-- GET and SET, core/snmp_msg_proc.c, over the tree, the views and the handlers. `none` is a handler's value
-- that `mib_instance_search` asserts against, undefined behaviour (a decoded object identifier that
-- leaves the union of `Variable`, a value read as another type), or a loop that does not end. What a
-- handler replies depends on what it is asked only.
pub mod Loop
pub mod Access
pub mod Writing
pub mod Respond
pub mod Errors
pub mod Sizes
pub mod Answers
pub mod GetNext
pub mod Dispatch
pub mod Onward
use smartsnmp.Base.{ℕ, zero, suc, ◌+◌, List, [], ◌∷◌, Option, none, some, Bool, ◌&&◌, ◌||◌}
use smartsnmp.Base.{if◌then◌else◌, ◌==◌, length}
use smartsnmp.Base.Int.{ℤ, pos, is_zero, is_neg}
use smartsnmp.Oid.{oid_cmp}
use smartsnmp.Mib.Node.{Node}
use smartsnmp.Mib.Search.{Lua, Variable, SearchRes, mib_tag_valid, mib_tree_search}
use smartsnmp.View.{
  View, Community, Aces, aces_read, aces_write, Store, views_of, mib_community_search,
}
use smartsnmp.View.Access.{
  mib_community_view_cover, mib_community_next_view, mib_user_search, mib_user_view_cover,
  mib_user_next_view,
}
use smartsnmp.Snmp.Packet.{V3, VarBind, Datagram, is_v3}

-- What the requests work on.
pub record Agent : Type 0 where
  pub lua_pcall : Lua
  pub tree : Node
  pub store : Store

-- The fields of `struct oid_search_res` that outlive one search.
pub record RetOid : Type 0 where
  pub id : List ℕ
  pub err_stat : ℤ
  pub var : Variable

abbrev pub no_access : ℤ
no_access = pos 6

abbrev pub not_writable : ℤ
not_writable = pos 17

-- The string that C sees in a zeroed array: the bytes in front of the first 0.
unfoldable pub c_str : List ℕ → List ℕ
c_str [] = []
c_str (b ∷ bs) = if b == 0 then [] else b ∷ c_str bs

unfoldable pub user_name_of : Option V3 → List ℕ
user_name_of none = []
user_name_of (some v) = v.security.user_name

-- The community, or the user for version 3, that a datagram names.
unfoldable pub principal : Store → Datagram → Option Community
principal st sdg =
    if is_v3 sdg.version.val
    then mib_user_search (c_str (user_name_of sdg.v3)) st.mib_users
    else mib_community_search (c_str sdg.context_name) st.mib_communities

unfoldable pub next_of : Datagram → Option Community → Aces → Option View → Option View
next_of sdg c attribute v =
    if is_v3 sdg.version.val
    then mib_user_next_view c attribute v
    else mib_community_next_view c attribute v

unfoldable pub cover_of : Datagram → Option Community → List ℕ → Bool
cover_of sdg c oid =
    if is_v3 sdg.version.val
    then mib_user_view_cover c aces_write oid
    else mib_community_view_cover c aces_write oid

-- A round for each view, and one that finds none.
unfoldable pub rounds : Aces → Option Community → ℕ
rounds attribute none = 1
rounds attribute (some c) = length (views_of attribute c) + 1

-- `!ret_oid->err_stat && MIB_TAG_VALID(tag(&ret_oid->var))`, or the identifier is ahead of the view.
unfoldable pub gotcha : List ℕ → View → SearchRes → Bool
gotcha oid v r = (is_zero r.err_stat && mib_tag_valid r.var.tag) || is_neg (oid_cmp oid v.oid)

module _ (agent : Agent) (request : ℕ) (oid : List ℕ) where
  -- The loop over the views, on fuel. A search without success leaves its error status and its tag.
  unfoldable pub search_views :
      ℕ → (Option View → Option View) → Option View → RetOid → Option RetOid
  search_views zero next v ret = none
  search_views (suc fuel) next v ret = elim (next v) [
    | none ↦ some record { id = oid; err_stat = ret.err_stat; var = ret.var }
    | some w ↦ elim (mib_tree_search agent.lua_pcall request ret.var w.oid oid agent.tree) [
      | none ↦ none
      | some r ↦
          let found : RetOid = record { id = oid; err_stat = r.err_stat; var = r.var } in
          let rest = search_views fuel next (some w) found in
          if gotcha oid w r then some found else rest
    ]
  ]

unfoldable pub refuse : Option Community → RetOid → RetOid
refuse none ret = record { id = ret.id; err_stat = no_access; var = ret.var }
refuse (some c) ret = ret

unfoldable pub mib_get : Agent → Datagram → VarBind → RetOid → Option RetOid
mib_get agent sdg vb_in ret =
    let c = principal agent.store sdg in
    search_views agent 0xa0 vb_in.oid (rounds aces_read c) (next_of sdg c aces_read) none
      (refuse c ret)

-- The community or user if its write views cover the identifier.
unfoldable pub writer : Datagram → List ℕ → Option Community → Option Community
writer sdg oid none = none
writer sdg oid (some c) = if cover_of sdg (some c) oid then some c else none

unfoldable pub mib_set : Agent → Datagram → VarBind → RetOid → Option RetOid
mib_set agent sdg vb_in ret =
    let c = writer sdg vb_in.oid (principal agent.store sdg) in
    search_views agent 0xa3 vb_in.oid (rounds aces_write c) (next_of sdg c aces_write) none
      (refuse c ret)
