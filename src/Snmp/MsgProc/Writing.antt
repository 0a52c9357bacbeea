-- ===== src/Snmp/MsgProc/Writing.antt =====
-- What SET asks behind the first write view, core/snmp_msg_proc.c.
use smartsnmp.Base.{subst, sym}
use smartsnmp.Mib.Search.{retag, req_val, mib_tag_valid}
use smartsnmp.Mib.Search.Get.{search_outside}
use smartsnmp.View.{View}
use smartsnmp.Base.{List, ◌∷◌, none, ◌∙◌, refl, inl, inr, false}
use smartsnmp.Base.Int.{pos, is_neg}
use smartsnmp.Snmp.MsgProc.{gotcha}
use smartsnmp.Base.{◌≡◌, some}
use smartsnmp.Oid.Compare.{IsOid}
use smartsnmp.View.{Community, aces_write, views_of}
use smartsnmp.Oid.{oid_cmp}
use smartsnmp.Oid.Cover.{Covers}
use smartsnmp.View.Covering.{Grants, AllOids, view_cover_iff}
use smartsnmp.View.Filter.{Pairwise}
use smartsnmp.View.Walk.{Differ}
use smartsnmp.Snmp.Packet.{VarBind, Datagram}
use smartsnmp.Snmp.MsgProc.{Agent, RetOid, principal, writer, refuse, mib_set}
use smartsnmp.Snmp.MsgProc.Loop.{search_list}
use smartsnmp.Snmp.MsgProc.Access.{cover_of-views, asked}

module _ (agent : Agent) (sdg : Datagram) (vb_in : VarBind) (ret : RetOid) (c : Community)
    (named : principal agent.store sdg ≡ some c) (oids : AllOids c.rw_views)
    (is_oid : IsOid vb_in.oid) (once : Pairwise Differ c.rw_views) where
  -- If some write view of the community or user that the datagram names covers the identifier and no view
  -- is twice among them, SET asks these views in their order until one answers.
  pub mib_set-search_list :
      Grants c.rw_views vb_in.oid
      → mib_set agent sdg vb_in ret ≡ search_list agent 0xa3 vb_in.oid c.rw_views ret
  unfolding mib_set writer views_of refuse
  mib_set-search_list g =
      rw
        (
          named,
          mib_set,
          writer,
          cover_of-views agent sdg vb_in ret c,
          (view_cover_iff c.rw_views vb_in.oid oids is_oid).1 g,
        )
        (asked agent sdg vb_in ret 0xa3 aces_write (some c) once)

  -- For the community or user that the datagram names: if the first of its write views, none twice, does
  -- not cover the identifier, which is not ahead of it, and the next one does, the loop of SET goes on at
  -- the next one with a variable whose tag has become NO_SUCH_OBJ: a handler is asked with this tag and
  -- without a value.
  pub mib_set_loses_value :
      (v w : View) (ws : List View)
      → c.rw_views ≡ v ∷ w ∷ ws
      → (¬ Covers v.oid vb_in.oid)
      → is_neg (oid_cmp vb_in.oid v.oid) ≡ false
      → Covers w.oid vb_in.oid
      → (mib_set agent sdg vb_in ret
          ≡ search_list agent 0xa3 vb_in.oid
              (w ∷ ws)
              record { id = vb_in.oid; err_stat = pos 0; var = retag 0x80 ret.var })
        × (req_val 0xa3 (retag 0x80 ret.var) ≡ some (none, 0x80))
  unfolding search_list gotcha req_val mib_tag_valid
  mib_set_loses_value v w ws views n ahead cover =
      let all : AllOids (v ∷ w ∷ ws) = subst AllOids views oids in
      (
        mib_set-search_list (subst (λ vs. Grants vs vb_in.oid) (sym views) (inr (inl cover)))
            ∙ rw
                (
                  views,
                  search_list,
                  search_outside 0xa3 ret.var v.oid vb_in.oid agent.tree agent.lua_pcall all.0
                      is_oid n,
                  gotcha,
                  ahead,
                )
                refl,
        refl,
      )
