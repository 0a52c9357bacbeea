-- ===== src/Mib/Search/Registered.antt =====
-- A registration and a GET after it, `mib_node_reg` and `mib_tree_search` of core/mib_tree.c.
use smartsnmp.Base.{ℕ, List, [], ◌∷◌, ◌++◌, ◌≡◌, ◌∙◌, refl, some, true, ==_refl}
use smartsnmp.Base.Int.{pos}
use smartsnmp.Oid.Compare.{IsOid}
use smartsnmp.Oid.Cover.{Covers}
use smartsnmp.Mib.Node.{Node, instance_node}
use smartsnmp.Mib.Node.Spec.{handler_at, IsTree}
use smartsnmp.Mib.Insert.{mib_node_reg}
use smartsnmp.Mib.Insert.Lookup.{same_oid}
use smartsnmp.Mib.Insert.Register.{reg-IsTree, reg-Adds}
use smartsnmp.Mib.Search.{Lua, Variable, mib_instance_search, of_reply, mib_tree_search}
use smartsnmp.Mib.Search.Get.{search_below}

same_oid_refl : (p : List ℕ) → same_oid p p ≡ true
unfolding same_oid
same_oid_refl [] = refl
same_oid_refl (x ∷ p) = rw (==_refl x, same_oid_refl p) refl

-- The tree after a registration that returned 0.
module _ (p : List ℕ) (c : ℕ) (root root' : Node) (tree : IsTree root)
    (returned : mib_node_reg p c root ≡ some (pos 0, root')) where
  new_IsTree : IsTree root'
  new_IsTree = reg-IsTree p c root tree root' returned

  new_handler : handler_at root' p ≡ some c
  new_handler = reg-Adds p c root tree root' returned p ∙ rw (same_oid_refl p) refl

  -- After a registration on a sorted tree that returned 0, a GET for an object identifier behind the registered one, in
  -- the view, gives what the new handler replies to the rest of it.
  pub reg-search :
      (lua_pcall : Lua) (request : ℕ) (var : Variable) (view : List ℕ) (x : ℕ) (q : List ℕ)
      → IsOid view
      → IsOid (p ++ (x ∷ q))
      → Covers view (p ++ (x ∷ q))
      → mib_tree_search lua_pcall request var view (p ++ (x ∷ q)) root'
        ≡ of_reply (instance_node c) (mib_instance_search lua_pcall c request var (x ∷ q))
  reg-search lua_pcall request var view x q hv ho cover =
      search_below lua_pcall request var view p x q root' c hv ho cover new_IsTree new_handler
