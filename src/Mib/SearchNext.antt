-- ===== src/Mib/SearchNext.antt =====
-- GETNEXT, `mib_tree_search_next` of core/mib_tree.c: the depth-first search for the instance that follows an
-- object identifier, with its stack of at most 64 groups to come back to.
pub mod Calls
pub mod Visit
pub mod Match
pub mod Rounds
pub mod Resume
pub mod Start
pub mod Refines
pub mod Ordered
pub mod Result
pub mod Greater
pub mod Complete
pub mod Unmoved
pub mod Promises
pub mod Ahead
pub mod Words
pub mod Answered
use smartsnmp.Base.{ℕ, zero, suc, ◌+◌, ◌-◌, List, [], ◌∷◌, ◌++◌, reverse, Option, none, some, ◌||◌}
use smartsnmp.Base.{true, false, if◌then◌else◌, ltb, leb, length, get_or, take, drop, ◌==◌}
use smartsnmp.Base.Int.{ℤ, pos, is_zero, is_pos, is_neg}
use smartsnmp.Oid.{oid_cmp, oid_cover}
use smartsnmp.Mib.Node.{Node, group_node, instance_node, Subs, found, vacant, null, slot_of}
use smartsnmp.Mib.Node.{sub_ids, sub_ptr, sub_id_cnt}
use smartsnmp.Mib.Delete.{nbl_push}
use smartsnmp.Mib.Delete.Walk.{rounds}
use smartsnmp.Mib.Search.{
  Lua, Variable, retag, Instance, mib_tag_valid, mib_instance_search, mib_tree_search,
}

-- The fields of `ret_oid` that the callers read.
pub record NextRes : Type 0 where
  pub oid : List ℕ
  pub err_stat : ℤ
  pub var : Variable

-- How the search ends: without fuel, which a theorem excludes; at a failed assertion or a read of what
-- has not been set; or with a result.
pub data Next : Type 0 where
  out_of_fuel : Next
  failed : Next
  next : NextRes → Next

-- A `struct node_backlog`: a group and the index to go on with, or NULL and -1.
abbrev pub Entry : Type 0
Entry = Option (Node × ℕ)

-- `none` is `immediate`; otherwise the sub-identifiers from `*oid` on, `id_len` of them.
abbrev pub Mode : Type 0
Mode = Option (List ℕ)

unfoldable pub end_of_view : List ℕ → Variable → NextRes
end_of_view orig_oid var = record { oid = orig_oid; err_stat = pos 0; var = retag 0x82 var }

-- What the case of an instance node makes of the reply.
pub data Verdict : Type 0 where
  broken : Verdict
  missing : Variable → Verdict
  taken : NextRes → Verdict

unfoldable pub proceed : Verdict → (Variable → Next) → Next
proceed broken back = failed
proceed (missing var) back = back var
proceed (taken r) back = next r

-- `base` is the object identifier of the node; the assertion bounds the whole of it by MIB_OID_MAX_LEN.
unfoldable pub judge : List ℕ → List ℕ → Option Instance → Verdict
unfolding mib_tag_valid
judge view base none = broken
judge view base (some r) =
    if mib_tag_valid r.var.tag
    then (if ltb 64 (length (base ++ r.inst_id))
        then broken
        else (if is_zero (oid_cover view (base ++ r.inst_id))
            then missing r.var
            else taken record { oid = base ++ r.inst_id; err_stat = r.err_stat; var = r.var }))
    else missing r.var

-- The rest of the object identifier that is given to the handler.
unfoldable pub inst_id_of : Mode → List ℕ
inst_id_of none = []
inst_id_of (some oid) = oid

unfoldable pub ask : Lua → List ℕ → ℕ → Variable → List ℕ → List ℕ → Verdict
unfolding judge mib_instance_search
ask lua_pcall view callback var base inst_id =
    judge view base (mib_instance_search lua_pcall callback 0xa1 var inst_id)

-- What to backlog once the child at index `i` is visited.
unfoldable pub entry_of : ℕ → ℕ → Subs → Entry
unfolding sub_id_cnt
entry_of i room s = if leb (sub_id_cnt s) (i + 1) then none else some (group_node room s, i + 1)

unfoldable pub sub_id_at : ℕ → Subs → ℕ
unfolding sub_ids
sub_id_at i s = get_or (sub_ids s) i 0

unfoldable pub node_of : Entry → Option Node
node_of none = none
node_of (some (n, i)) = some n

unfoldable pub idx_of : Entry → ℕ
idx_of none = 0
idx_of (some (n, i)) = i

-- `oid--`, on the sub-identifiers in reverse order.
unfoldable pub shorter : List ℕ → List ℕ
shorter [] = []
shorter (x ∷ up) = up

-- `--id_len == 0 && node->type == MIB_OBJ_GROUP`
unfoldable pub settle : Option Node → List ℕ → Mode
settle (some (group_node room s)) [] = none
settle n oid = some oid

-- In the view, the search matches what is longer than the way to the node.
unfoldable pub mode_in : ℕ → List ℕ → Mode
mode_in at oid = if ltb at (length oid) then some (drop at oid) else none

-- Ahead of the view, the mode goes by the type of the node.
unfoldable pub start_mode : Node → List ℕ → Mode
start_mode (group_node room s) oid = none
start_mode (instance_node c) oid = some oid

module _ (lua_pcall : Lua) (view orig_oid : List ℕ) where
  -- The loop on fuel: `node` (`here`), the index of `p_nbl` or 0, `immediate` with what is left to match,
  -- the sub-identifiers written in reverse order, the stack, and `var`.
  unfoldable pub next_loop : ℕ → Option Node → ℕ → Mode → List ℕ → List Entry → Variable → Next
  unfolding ask proceed inst_id_of entry_of sub_id_at sub_ptr node_of idx_of shorter settle nbl_push
      end_of_view slot_of sub_id_cnt
  next_loop zero here idx mode up stk var = out_of_fuel
  next_loop (suc fuel) here idx mode up stk var =
      let back : Variable → Next = λ var'. elim stk [
        | [] ↦ next (end_of_view orig_oid var')
        | e ∷ rest ↦ next_loop fuel (node_of e) (idx_of e) none (shorter up) rest var'
      ] in
      elim here [
        | none ↦ back var
        | some (instance_node c) ↦
            proceed (ask lua_pcall view c var (reverse up) (inst_id_of mode)) back
        | some (group_node room s) ↦
            (let visit : ℕ → Mode → Next = λ i mode'.
                next_loop fuel (sub_ptr s i) 0 mode' (sub_id_at i s ∷ up)
                  (nbl_push (entry_of i room s) stk) var in
              elim mode [
                | none ↦ visit idx none
                | some wanted ↦ elim wanted [
                  | [] ↦ failed
                  | id ∷ oid ↦ elim (slot_of id s) [
                    | found i n ↦ visit i (settle (some n) oid)
                    | null ↦ failed
                    | vacant i ↦
                        let again = next_loop fuel (some (group_node room s)) 0 none up stk var in
                        if i == sub_id_cnt s
                        then back var
                        else (if i == 0 then again else visit i none)
                  ]
                ]
              ])
      ]

  -- From the node where the search at the view ends, `at` sub-identifiers deep.
  unfoldable pub next_from : Node → ℕ → Mode → List ℕ → Variable → Next
  unfolding rounds
  next_from n at mode oid var =
      next_loop (rounds n + 1) (some n) 0 mode (reverse (take at oid)) [] var

-- What starts from the result of the GET search at the view.
unfoldable pub next_at : Lua → List ℕ → List ℕ → ℕ → Node → List ℕ → Variable → Next
unfolding next_from start_mode mode_in
next_at lua_pcall view orig_oid at n left var =
    if is_pos (oid_cover view orig_oid)
    then next_from lua_pcall view orig_oid n at (mode_in at orig_oid) orig_oid var
    else next_from lua_pcall view orig_oid n at (start_mode n left) view var

unfoldable pub mib_tree_search_next : Lua → Variable → List ℕ → List ℕ → Node → Next
unfolding mib_tree_search next_at next_loop
mib_tree_search_next lua_pcall var view orig_oid root =
    if is_pos (oid_cover view orig_oid) || is_neg (oid_cmp orig_oid view)
    then elim (mib_tree_search lua_pcall 0xa0 var view view root) [
      | none ↦ failed
      | some r ↦ elim r.node [
        | none ↦ failed
        | some n ↦
            next_at lua_pcall view orig_oid (length view - length r.inst_id) n r.inst_id r.var
      ]
    ]
    else next_loop lua_pcall view orig_oid 1 none 0 none [] [] var
