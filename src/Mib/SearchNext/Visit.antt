-- ===== src/Mib/SearchNext/Visit.antt =====
-- The loop of GETNEXT in its immediate mode against the calls of the subtree.
use native.Mathlib.Numerals.{one-add}
use smartsnmp.Base.{ℕ, suc, ◌+◌, ◌≡◌, ◌≤◌, ◌<◌, ◌∙◌, refl, sym, arith}
use smartsnmp.Base.{List, [], ◌∷◌, reverse, none, some, length, lt→ltb}
use smartsnmp.Mib.Node.{
  Node, group_node, instance_node, Subs, nil, cons, sub_ids, sub_ptr, sub_id_cnt,
}
use smartsnmp.Mib.Node.Rest.{IsRest, IsRest-whole, IsRest-tail, IsRest-head, IsRest-ident}
use smartsnmp.Mib.Delete.{nbl_push}
use smartsnmp.Mib.Delete.Walk.{rounds, rounds_more, height, height_subs}
use smartsnmp.Mib.Search.{Lua, Variable}
use smartsnmp.Mib.SearchNext.{
  Next, Entry, Mode, next, end_of_view, ask, proceed, inst_id_of, entry_of, sub_id_at, node_of,
  idx_of, shorter, next_loop,
}
use smartsnmp.Mib.SearchNext.Calls.{all_calls, subs_calls, answer, answer-append, answer-congr}

-- The entry in a list of sub-identifiers and the child of the group, in one.
pub entry_last :
    (full : Subs) (room i id : ℕ) (n : Node)
    → IsRest full (cons id n nil) i
    → entry_of i room full ≡ none
unfolding entry_of sub_id_cnt sub_ids
entry_last full room i id n h = ground (arith, h.count)

pub entry_more :
    (full s : Subs) (room i id id' : ℕ) (n n' : Node)
    → IsRest full (cons id n (cons id' n' s)) i
    → entry_of i room full ≡ some (group_node room full, i + 1)
unfolding entry_of sub_id_cnt sub_ids
entry_more full s room i id id' n n' h = ground (arith, h.count)

pub three : (fuel : ℕ) → 3 + fuel ≡ suc (suc (suc fuel))
three fuel = omega arith

pub regroup : (a b fuel : ℕ) → a + 1 + b + 1 + fuel ≡ suc (a + (b + 1 + fuel))
regroup a b fuel = omega arith

module _ (lua_pcall : Lua) (view orig_oid : List ℕ) where
  -- The rest of the run once a subtree gives nothing.
  unfoldable pub backtrack : ℕ → List ℕ → List Entry → Variable → Next
  unfolding next_loop node_of idx_of shorter end_of_view
  backtrack fuel up [] var = next (end_of_view orig_oid var)
  backtrack fuel up (e ∷ rest) var =
      next_loop lua_pcall view orig_oid fuel (node_of e) (idx_of e) none (shorter up) rest var

  -- The loop body, by cases.
  module _ (fuel i : ℕ) (up : List ℕ) where
    pub instance_round :
        (stk : List Entry) (var : Variable) (c : ℕ) (mode : Mode)
        → next_loop lua_pcall view orig_oid (suc fuel) (some (instance_node c)) i mode up stk var
          ≡ proceed
              (ask lua_pcall view c var (reverse up) (inst_id_of mode))
              (backtrack fuel up stk)
    unfolding next_loop backtrack
    instance_round [] var c mode = refl
    instance_round (e ∷ rest) var c mode = refl

    pub null_round :
        (stk : List Entry) (var : Variable) (mode : Mode)
        → next_loop lua_pcall view orig_oid (suc fuel) none i mode up stk var
          ≡ backtrack fuel up stk var
    unfolding next_loop backtrack
    null_round [] var mode = refl
    null_round (e ∷ rest) var mode = refl

    -- With room on the stack the child is visited.
    pub child_round :
        (stk : List Entry) (var : Variable) (room : ℕ) (s : Subs)
        → length stk < 64
        → next_loop lua_pcall view orig_oid (suc fuel) (some (group_node room s)) i none up stk var
          ≡ next_loop lua_pcall view orig_oid fuel
              (sub_ptr s i)
              0
              none
              (sub_id_at i s ∷ up)
              (entry_of i room s ∷ stk)
              var
    unfolding next_loop nbl_push
    child_round stk var room s h = rw (next_loop, lt→ltb (length stk) 64 h) refl

  -- What is asked of the run of a node.
  abbrev Visits : Node → Type 0
  Visits n =
      (fuel : ℕ) (up : List ℕ) (stk : List Entry) (var : Variable)
      → height n + length stk ≤ 64
      → next_loop lua_pcall view orig_oid (rounds n + fuel) (some n) 0 none up stk var
        ≡ answer lua_pcall view (all_calls n up) (backtrack fuel up stk) var

  -- One child is visited, and what was backlogged is popped.
  visit_child :
      (full : Subs) (room i id : ℕ) (n : Node) (rest : Subs) (fuel : ℕ) (up : List ℕ)
      (stk : List Entry) (var : Variable)
      → IsRest full (cons id n rest) i
      → suc (height n) + length stk ≤ 64
      → Visits n
      → next_loop lua_pcall view orig_oid
          (suc (rounds n + fuel))
          (some (group_node room full))
          i
          none
          up
          stk
          var
        ≡ answer lua_pcall view
            (all_calls n (id ∷ up))
            (backtrack fuel (id ∷ up) (entry_of i room full ∷ stk))
            var
  unfolding sub_id_at
  visit_child full room i id n rest fuel up stk var r h visits =
      child_round (rounds n + fuel) i up stk var room full (omega arith)
      ∙ rw (IsRest-head full rest i id n r, IsRest-ident full rest i id n r)
          (visits fuel (id ∷ up) (entry_of i room full ∷ stk) var (omega arith))

  -- The popped entry of a last child leads to one more pop.
  pop_last :
      (fuel id : ℕ) (up : List ℕ) (stk : List Entry) (var : Variable)
      → backtrack (suc fuel) (id ∷ up) (none ∷ stk) var ≡ backtrack fuel up stk var
  unfolding backtrack
  pop_last fuel id up stk var = null_round fuel 0 up stk var none

  pop_more :
      (fuel id i : ℕ) (n : Node) (up : List ℕ) (stk : List Entry) (var : Variable)
      → backtrack fuel (id ∷ up) (some (n, i) ∷ stk) var
        ≡ next_loop lua_pcall view orig_oid fuel (some n) i none up stk var
  unfolding backtrack node_of idx_of shorter
  pop_more fuel id i n up stk var = refl

  empty_group :
      (fuel room : ℕ) (up : List ℕ) (stk : List Entry) (var : Variable)
      → suc (length stk) ≤ 64
      → next_loop lua_pcall view orig_oid
          (suc (suc (suc fuel)))
          (some (group_node room nil))
          0
          none
          up
          stk
          var
        ≡ backtrack fuel up stk var
  unfolding sub_ptr entry_of sub_id_at sub_id_cnt sub_ids
  empty_group fuel room up stk var h =
      child_round (suc (suc fuel)) 0 up stk var room nil (omega arith)
      ∙ null_round (suc fuel) 0 (0 ∷ up) (none ∷ stk) var none
      ∙ pop_last fuel 0 up stk var

  -- The calls of one child, and then what comes behind it.
  pub visit_rest :
      (full : Subs) (room i id : ℕ) (n : Node) (rest : Subs) (fuel : ℕ) (up : List ℕ)
      (stk : List Entry) (var : Variable)
      → IsRest full (cons id n rest) i
      → suc (height n) + length stk ≤ 64
      → Visits n
      → ((v : Variable)
          → backtrack (rounds_more rest + 1 + fuel) (id ∷ up) (entry_of i room full ∷ stk) v
            ≡ answer lua_pcall view (subs_calls rest up) (backtrack fuel up stk) v)
      → next_loop lua_pcall view orig_oid
          (suc (rounds n + (rounds_more rest + 1 + fuel)))
          (some (group_node room full))
          i
          none
          up
          stk
          var
        ≡ answer lua_pcall view (subs_calls (cons id n rest) up) (backtrack fuel up stk) var
  unfolding subs_calls
  visit_rest full room i id n rest fuel up stk var r h visits after =
      visit_child full room i id n rest _ up stk var r h visits
      ∙ answer-congr lua_pcall view (all_calls n (id ∷ up)) _ _ var after
      ∙ sym (answer-append lua_pcall view (all_calls n (id ∷ up)) (subs_calls rest up) _ var)

  mutual
    unfolding rounds all_calls subs_calls height answer inst_id_of

    -- With fuel for the node and room on the stack, the loop asks the handlers of the subtree in order.
    pub visit_node :
        (n : Node) (fuel : ℕ) (up : List ℕ) (stk : List Entry) (var : Variable)
        → height n + length stk ≤ 64
        → next_loop lua_pcall view orig_oid (rounds n + fuel) (some n) 0 none up stk var
          ≡ answer lua_pcall view (all_calls n up) (backtrack fuel up stk) var
    visit_node (instance_node c) fuel up stk var h =
        rw (one-add fuel) (instance_round fuel 0 up stk var c none)
    visit_node (group_node room nil) fuel up stk var h =
        rw (three fuel) (empty_group fuel room up stk var (omega arith))
    visit_node (group_node room (cons id n s)) fuel up stk var h =
        rw (regroup (rounds n) (rounds_more s) fuel) (
          visit_rest (cons id n s) room 0 id n s fuel up stk var (IsRest-whole (cons id n s))
            (omega arith) (visit_node n)
            (after_child s (cons id n s) room 0 id n fuel up stk (IsRest-whole (cons id n s))
              (omega arith)))

    -- Behind the child at index `i`.
    pub after_child :
        (rest full : Subs) (room i id : ℕ) (n : Node) (fuel : ℕ) (up : List ℕ) (stk : List Entry)
        → IsRest full (cons id n rest) i
        → suc (height_subs rest) + length stk ≤ 64
        → (var : Variable)
        → backtrack (rounds_more rest + 1 + fuel) (id ∷ up) (entry_of i room full ∷ stk) var
          ≡ answer lua_pcall view (subs_calls rest up) (backtrack fuel up stk) var
    after_child nil full room i id n fuel up stk r h var =
        rw (one-add fuel, entry_last full room i id n r) (pop_last fuel id up stk var)
    after_child (cons id' n' rest) full room i id n fuel up stk r h var =
        rw (regroup (rounds n') (rounds_more rest) fuel, entry_more full rest room i id id' n n' r)
          (pop_more _ id (i + 1) (group_node room full) up stk var
            ∙ visit_rest full room (i + 1) id' n' rest fuel up stk var
                (IsRest-tail full (cons id' n' rest) i id n r) (omega arith) (visit_node n')
                (after_child rest full room (i + 1) id' n' fuel up stk
                  (IsRest-tail full (cons id' n' rest) i id n r) (omega arith)))
