-- ===== src/Mib/SearchNext/Rounds.antt =====
-- One round of the loop of GETNEXT in a group while it still matches the object identifier.
use smartsnmp.Base.{==_apart}
use smartsnmp.Base.{lt→ltb}
use smartsnmp.Base.{none}
use smartsnmp.Base.{==_refl}
use smartsnmp.Mib.Node.{found}
use smartsnmp.Mib.Node.{vacant}
use smartsnmp.Mib.Delete.{nbl_push}
use smartsnmp.Base.{List, [], ◌∷◌}
use smartsnmp.Base.{[]}
use smartsnmp.Base.{some}
use smartsnmp.Mib.SearchNext.{nbl_push}
use smartsnmp.Base.{length}
use smartsnmp.Mib.Node.{slot_of}
use smartsnmp.Base.{List}
use smartsnmp.Base.{ℕ, suc, ◌≡◌, ◌<◌, refl, arith}
use smartsnmp.Mib.Node.{Node, group_node, Subs, sub_ptr, sub_id_cnt}
use smartsnmp.Mib.Search.{Lua, Variable}
use smartsnmp.Mib.SearchNext.{Entry, settle, entry_of, sub_id_at, next_loop}
use smartsnmp.Mib.SearchNext.Visit.{backtrack}

module _ (lua_pcall : Lua) (view orig_oid : List ℕ) where
  module _ (fuel idx id : ℕ) (oid up : List ℕ) (stk : List Entry) (var : Variable) (room : ℕ)
      (s : Subs) where
    pub found_round :
        (i : ℕ) (n : Node)
        → slot_of id s ≡ found i n
        → length stk < 64
        → next_loop lua_pcall view orig_oid
            (suc fuel)
            (some (group_node room s))
            idx
            (some (id ∷ oid))
            up
            stk
            var
          ≡ next_loop lua_pcall view orig_oid fuel
              (sub_ptr s i)
              0
              (settle (some n) oid)
              (sub_id_at i s ∷ up)
              (entry_of i room s ∷ stk)
              var
    unfolding next_loop nbl_push
    found_round i n e h = rw (next_loop, e, lt→ltb (length stk) 64 h) refl

    pub next_round :
        (i : ℕ)
        → slot_of id s ≡ vacant i
        → 0 < i
        → i < sub_id_cnt s
        → length stk < 64
        → next_loop lua_pcall view orig_oid
            (suc fuel)
            (some (group_node room s))
            idx
            (some (id ∷ oid))
            up
            stk
            var
          ≡ next_loop lua_pcall view orig_oid fuel
              (sub_ptr s i)
              0
              none
              (sub_id_at i s ∷ up)
              (entry_of i room s ∷ stk)
              var
    unfolding next_loop nbl_push
    next_round i e p q h =
        rw
          (
            next_loop,
            e,
            lt→ltb (length stk) 64 h,
            ==_apart i (sub_id_cnt s) (omega arith),
            ==_apart i 0 (omega arith),
          )
          refl

    pub first_round :
        slot_of id s ≡ vacant 0
        → 0 < sub_id_cnt s
        → next_loop lua_pcall view orig_oid
            (suc fuel)
            (some (group_node room s))
            idx
            (some (id ∷ oid))
            up
            stk
            var
          ≡ next_loop lua_pcall view orig_oid fuel (some (group_node room s)) 0 none up stk var
    unfolding next_loop
    first_round e q = rw (next_loop, e, ==_apart 0 (sub_id_cnt s) (omega arith)) refl

  pub end_round :
      (fuel idx id : ℕ) (oid up : List ℕ) (stk : List Entry) (var : Variable) (room : ℕ) (s : Subs)
      (i : ℕ)
      → slot_of id s ≡ vacant i
      → i ≡ sub_id_cnt s
      → next_loop lua_pcall view orig_oid
          (suc fuel)
          (some (group_node room s))
          idx
          (some (id ∷ oid))
          up
          stk
          var
        ≡ backtrack lua_pcall view orig_oid fuel up stk var
  unfolding next_loop backtrack
  end_round fuel idx id oid up [] var room s i e q =
      rw (next_loop, e, q, ==_refl (sub_id_cnt s)) refl
  end_round fuel idx id oid up (x ∷ stk) var room s i e q =
      rw (next_loop, e, q, ==_refl (sub_id_cnt s)) refl
