-- ===== src/Snmp/MsgProc/Access.antt =====
-- What GET and SET ask, core/snmp_msg_proc.c, and what they are refused.
use smartsnmp.Base.{
  if◌then◌else◌, ℕ, ◌+◌, ◌≡◌, ◌∙◌, refl, sym, List, [], ◌∷◌, Option, none, some, true, false,
  length, arith, Bool, Bool-cases, Option-cases, inl, inr,
}
use smartsnmp.Base.Int.{pos, is_zero, is_neg}
use smartsnmp.Oid.{oid_cmp}
use smartsnmp.Oid.Compare.{IsOid}
use smartsnmp.Mib.Search.{SearchRes, mib_tree_search, retag}
use smartsnmp.Mib.Search.Get.{search_outside}
use smartsnmp.View.{View, Community, Aces, aces_read, aces_write, views_of}
use smartsnmp.View.Access.{
  view_cover, mib_community_view_cover, mib_community_next_view, mib_user_view_cover,
  mib_user_next_view,
}
use smartsnmp.View.Covering.{Grants, AllOids, view_cover_iff}
use smartsnmp.View.Filter.{Pairwise}
use smartsnmp.View.Walk.{Differ}
use smartsnmp.Snmp.Packet.{VarBind, Datagram, is_v3}
use smartsnmp.Snmp.MsgProc.{
  Agent, RetOid, no_access, gotcha, principal, next_of, cover_of, search_views, rounds, refuse,
  writer, mib_get, mib_set,
}
use smartsnmp.Snmp.MsgProc.Loop.{search_list, search_views-list, next_of-views}

-- The views of the community or user that was found.
abbrev pub granted : Aces → Option Community → List View
granted attribute none = []
granted attribute (some c) = views_of attribute c

module _ (agent : Agent) (sdg : Datagram) (vb_in : VarBind) (ret : RetOid) where
  nobody :
      (request : ℕ) (attribute : Aces)
      → search_views agent request vb_in.oid 1 (next_of sdg none attribute) none (refuse none ret)
        ≡ some record { id = vb_in.oid; err_stat = no_access; var = ret.var }
  unfolding search_views refuse next_of
  nobody request attribute = elim (Bool-cases (is_v3 sdg.version.val)) [
    | inl e ↦
        rw (search_views, next_of, e) (unfold mib_user_next_view mib_community_next_view in refl)
    | inr e ↦
        rw (search_views, next_of, e) (unfold mib_user_next_view mib_community_next_view in refl)
  ]

  pub asked :
      (request : ℕ) (attribute : Aces) (c : Option Community)
      → Pairwise Differ (granted attribute c)
      → search_views agent request vb_in.oid
          (rounds attribute c)
          (next_of sdg c attribute)
          none
          (refuse c ret)
        ≡ search_list agent request vb_in.oid (granted attribute c) (refuse c ret)
  unfolding rounds refuse
  asked request attribute none h = nobody request attribute ∙ (unfold search_list in refl)
  asked request attribute (some c) h =
      let vs = views_of attribute c in
      let n : length vs + 1 ≡ length vs + 1 + 0 = omega arith in
      rw n (
        search_views-list agent request vb_in.oid vs 0 (next_of sdg (some c) attribute) ret h
          (next_of-views sdg c attribute))

  -- If no view is twice among the read views of the community or user that the datagram names, GET asks
  -- these views in their order until one answers; if it names none, the answer is NO_ACCESS.
  pub mib_get-search_list :
      Pairwise Differ (granted aces_read (principal agent.store sdg))
      → mib_get agent sdg vb_in ret
        ≡ search_list agent 0xa0 vb_in.oid
            (granted aces_read (principal agent.store sdg))
            (refuse (principal agent.store sdg) ret)
  unfolding mib_get
  mib_get-search_list h = asked 0xa0 aces_read (principal agent.store sdg) h

  pub cover_of-views :
      (c : Community) → cover_of sdg (some c) vb_in.oid ≡ view_cover c.rw_views vb_in.oid
  unfolding cover_of mib_user_view_cover mib_community_view_cover
  cover_of-views c = elim (Bool-cases (is_v3 sdg.version.val)) [
    | inl e ↦ rw (cover_of, e) refl
    | inr e ↦ rw (cover_of, e) refl
  ]

  not_covered :
      (c : Community)
      → AllOids c.rw_views
      → IsOid vb_in.oid
      → (¬ Grants c.rw_views vb_in.oid)
      → writer sdg vb_in.oid (some c) ≡ none
  unfolding writer
  not_covered c all o n = elim (Bool-cases (cover_of sdg (some c) vb_in.oid)) [
    | inl e ↦
        absurd (n ((view_cover_iff c.rw_views vb_in.oid all o).0 (sym (cover_of-views c) ∙ e)))
    | inr e ↦ rw (writer, e) refl
  ]

  -- A SET for an identifier that no write view of the community or user covers is answered with NO_ACCESS
  -- and the value of the request, without asking a handler; likewise if there is no such community or user.
  pub mib_set_refused :
      ((c : Community)
        → principal agent.store sdg ≡ some c
        → AllOids c.rw_views × (¬ Grants c.rw_views vb_in.oid))
      → IsOid vb_in.oid
      → mib_set agent sdg vb_in ret
        ≡ some record { id = vb_in.oid; err_stat = no_access; var = ret.var }
  unfolding mib_set rounds
  mib_set_refused h o = rw no_writer (nobody 0xa3 aces_write)
    where
      no_writer : writer sdg vb_in.oid (principal agent.store sdg) ≡ none
      no_writer = elim (Option-cases (principal agent.store sdg)) [
        | inl e ↦ rw e (unfold writer in refl)
        | inr (c, e) ↦ rw e (let (all, n) = h c e in not_covered c all o n)
      ]

if_same : {A : Type 0} (b : Bool) (x : A) → (if b then x else x) ≡ x
if_same true x = refl
if_same false x = refl

-- Out of all views NO_SUCH_OBJ is found, and no handler is asked.
search_list_outside :
    (agent : Agent) (request : ℕ) (oid : List ℕ) (w : View) (ws : List View) (ret : RetOid)
    → AllOids (w ∷ ws)
    → IsOid oid
    → (¬ Grants (w ∷ ws) oid)
    → search_list agent request oid (w ∷ ws) ret
      ≡ some record { id = oid; err_stat = pos 0; var = retag 0x80 ret.var }
unfolding search_list
search_list_outside agent request oid w [] ret (hw, hs) ho n =
    rw
      (
        search_list,
        search_outside request ret.var w.oid oid agent.tree agent.lua_pcall hw ho (λ c. n (inl c)),
      )
      (if_same (gotcha oid w _) _)
search_list_outside agent request oid w (w' ∷ ws) ret (hw, hs) ho n =
    rw
      (
        search_list,
        search_outside request ret.var w.oid oid agent.tree agent.lua_pcall hw ho (λ c. n (inl c)),
      )
      (rw
        (search_list_outside agent request oid w' ws
          (record { id = oid; err_stat = pos 0; var = retag 0x80 ret.var }) hs ho (λ g. n (inr g)))
        (if_same (gotcha oid w _) _))

-- A GET for an identifier that none of the read views covers, at least one and none twice, is answered
-- with NO_SUCH_OBJ and no error, without asking a handler.
pub mib_get_outside :
    (agent : Agent) (sdg : Datagram) (vb_in : VarBind) (ret : RetOid) (c : Community) (w : View)
    (ws : List View)
    → principal agent.store sdg ≡ some c
    → c.ro_views ≡ w ∷ ws
    → Pairwise Differ (w ∷ ws)
    → AllOids (w ∷ ws)
    → IsOid vb_in.oid
    → (¬ Grants (w ∷ ws) vb_in.oid)
    → mib_get agent sdg vb_in ret
      ≡ some record { id = vb_in.oid; err_stat = pos 0; var = retag 0x80 ret.var }
unfolding views_of refuse
mib_get_outside agent sdg vb_in ret c w ws p v d all o n =
    mib_get-search_list agent sdg vb_in ret (rw (p, v) d)
    ∙ rw (p, v) (search_list_outside agent 0xa0 vb_in.oid w ws _ all o n)

-- The error with which a handler answers a GET is lost if other read views follow, none twice, that do not
-- cover the identifier, which is not ahead of the first: the answer is NO_SUCH_OBJ and no error.
pub mib_get_loses_error :
    (agent : Agent) (sdg : Datagram) (vb_in : VarBind) (ret : RetOid) (c : Community) (v w : View)
    (ws : List View) (r : SearchRes)
    → principal agent.store sdg ≡ some c
    → c.ro_views ≡ v ∷ w ∷ ws
    → Pairwise Differ (v ∷ w ∷ ws)
    → AllOids (w ∷ ws)
    → IsOid vb_in.oid
    → (¬ Grants (w ∷ ws) vb_in.oid)
    → mib_tree_search agent.lua_pcall 0xa0 ret.var v.oid vb_in.oid agent.tree ≡ some r
    → is_zero r.err_stat ≡ false
    → is_neg (oid_cmp vb_in.oid v.oid) ≡ false
    → mib_get agent sdg vb_in ret
      ≡ some record { id = vb_in.oid; err_stat = pos 0; var = retag 0x80 r.var }
unfolding search_list gotcha views_of refuse
mib_get_loses_error agent sdg vb_in ret c v w ws r p vs d all o n s e a =
    mib_get-search_list agent sdg vb_in ret (rw (p, vs) d)
    ∙ rw (p, vs, search_list, s, gotcha, e, a)
        (search_list_outside agent 0xa0 vb_in.oid w ws
          (record { id = vb_in.oid; err_stat = r.err_stat; var = r.var }) all o n)
