-- ===== src/Mib/Delete/Free.antt =====
-- The explicit stack of `__mib_tree_delete` against the recursive traversal.
use mathlib.Core.List.{append_assoc, append-nil}
use Prim.Native.Nat.{max}
use native.Mathlib.Numerals.{one-add}
use smartsnmp.Base.{ℕ, suc, ◌+◌, ◌≡◌, ◌≤◌, ◌<◌, ◌∙◌, refl, ap, arith}
use smartsnmp.Base.{List, [], ◌∷◌, ◌++◌, Option, none, some, length, lt→ltb}
use smartsnmp.Mib.Node.{
  Node, group_node, instance_node, Subs, nil, cons, sub_ids, sub_ptr, sub_id_cnt,
}
use smartsnmp.Mib.Node.Rest.{IsRest, IsRest-whole, IsRest-tail, IsRest-head}
use smartsnmp.Mib.Delete.Walk.{events, events_subs, rounds, rounds_more, height, height_subs}
use smartsnmp.Mib.Delete.{
  Event, free_group, unref, Backlog, nbl_push, index_of, next_idx, free_loop,
}

-- The rest of the run once a node is done.
abbrev backtrack : ℕ → List Backlog → List Event → Option (List Event)
backtrack fuel [] freed = some freed
backtrack fuel ((n, k) ∷ rest) freed = free_loop fuel (some n) (some k) rest freed

-- The loop body, by cases.
instance_round :
    (fuel c : ℕ) (p : Option (Option ℕ)) (stk : List Backlog) (freed : List Event)
    → free_loop (suc fuel) (some (instance_node c)) p stk freed
      ≡ backtrack fuel stk (freed ++ (unref c ∷ []))
unfolding free_loop
instance_round fuel c p [] freed = refl
instance_round fuel c p ((n, k) ∷ rest) freed = refl

null_round :
    (fuel : ℕ) (p : Option (Option ℕ)) (stk : List Backlog) (freed : List Event)
    → free_loop (suc fuel) none p stk freed ≡ backtrack fuel stk freed
unfolding free_loop
null_round fuel p [] freed = refl
null_round fuel p ((n, k) ∷ rest) freed = refl

last_round :
    (fuel room : ℕ) (s : Subs) (stk : List Backlog) (freed : List Event)
    → free_loop (suc fuel) (some (group_node room s)) (some none) stk freed
      ≡ backtrack fuel stk (freed ++ (free_group ∷ []))
unfolding free_loop
last_round fuel room s [] freed = refl
last_round fuel room s ((n, k) ∷ rest) freed = refl

-- With room on the stack the group is backlogged and its child visited.
child_round :
    (fuel room i : ℕ) (s : Subs) (p : Option (Option ℕ)) (stk : List Backlog) (freed : List Event)
    → index_of p ≡ some i
    → length stk < 64
    → free_loop (suc fuel) (some (group_node room s)) p stk freed
      ≡ free_loop fuel (sub_ptr s i) none ((group_node room s, next_idx i s) ∷ stk) freed
unfolding free_loop nbl_push
child_round fuel room i s p stk freed e h = rw (free_loop, e, lt→ltb (length stk) 64 h) refl

next_last :
    (full : Subs) (i id : ℕ) (n : Node) → IsRest full (cons id n nil) i → next_idx i full ≡ none
unfolding next_idx sub_id_cnt sub_ids
next_last full i id n h = ground (arith, h.count)

next_more :
    (full s : Subs) (i id id' : ℕ) (n n' : Node)
    → IsRest full (cons id n (cons id' n' s)) i
    → next_idx i full ≡ some (i + 1)
unfolding next_idx sub_id_cnt sub_ids
next_more full s i id id' n n' h = ground (arith, h.count)

-- What is asked of the run of a node.
abbrev Frees : Node → Type 0
Frees n =
    (fuel : ℕ) (stk : List Backlog) (freed : List Event)
    → height n + length stk ≤ 64
    → free_loop (rounds n + fuel) (some n) none stk freed ≡ backtrack fuel stk (freed ++ events n)

-- One child is visited and freed, and the group popped again at the next index.
visit_child :
    (full : Subs) (room i : ℕ) (n : Node) (p : Option (Option ℕ)) (k : Option ℕ) (fuel : ℕ)
    (stk : List Backlog) (freed : List Event)
    → index_of p ≡ some i
    → sub_ptr full i ≡ some n
    → next_idx i full ≡ k
    → suc (height n) + length stk ≤ 64
    → Frees n
    → free_loop (suc (rounds n + fuel)) (some (group_node room full)) p stk freed
      ≡ free_loop fuel (some (group_node room full)) (some k) stk (freed ++ events n)
visit_child full room i n p k fuel stk freed e at next h frees =
    child_round (rounds n + fuel) room i full p stk freed e (omega arith)
    ∙ rw (at, next) (frees fuel ((group_node room full, k) ∷ stk) freed (omega arith))

empty_group :
    (fuel room : ℕ) (stk : List Backlog) (freed : List Event)
    → suc (length stk) ≤ 64
    → free_loop (suc (suc (suc fuel))) (some (group_node room nil)) none stk freed
      ≡ backtrack fuel stk (freed ++ (free_group ∷ []))
unfolding sub_ptr index_of next_idx sub_id_cnt sub_ids
empty_group fuel room stk freed h =
    child_round (suc (suc fuel)) room 0 nil none stk freed refl (omega arith)
    ∙ null_round (suc fuel) none ((group_node room nil, none) ∷ stk) freed
    ∙ last_round fuel room nil stk freed

three : (fuel : ℕ) → 3 + fuel ≡ suc (suc (suc fuel))
three fuel = omega arith

regroup : (a b fuel : ℕ) → a + 1 + b + 1 + fuel ≡ suc (a + (b + 1 + fuel))
regroup a b fuel = omega arith

index_first : index_of none ≡ some 0
unfolding index_of
index_first = refl

index_popped : (k : ℕ) → index_of (some (some k)) ≡ some k
unfolding index_of
index_popped k = refl

mutual
  unfolding rounds events height

  -- With fuel for the node and room on the stack, the loop frees the node and backtracks.
  free_node :
      (n : Node) (fuel : ℕ) (stk : List Backlog) (freed : List Event)
      → height n + length stk ≤ 64
      → free_loop (rounds n + fuel) (some n) none stk freed ≡ backtrack fuel stk (freed ++ events n)
  free_node (instance_node c) fuel stk freed h =
      rw (one-add fuel) (instance_round fuel c none stk freed)
  free_node (group_node room nil) fuel stk freed h =
      rw (three fuel) (empty_group fuel room stk freed (omega arith))
  free_node (group_node room (cons id n s)) fuel stk freed h =
      rw (regroup (rounds n) (rounds_more s) fuel) (
        free_rest s (cons id n s) room 0 id n none fuel stk freed (IsRest-whole (cons id n s))
          index_first h (free_node n)
        ∙ ap (backtrack fuel stk)
            (append_assoc freed (events n ++ events_subs s) (free_group ∷ [])))

  -- From the child at index `i` on, and then the group.
  free_rest :
      (rest : Subs) (full : Subs) (room i id : ℕ) (n : Node) (p : Option (Option ℕ)) (fuel : ℕ)
      (stk : List Backlog) (freed : List Event)
      → IsRest full (cons id n rest) i
      → index_of p ≡ some i
      → suc (max (height n) (height_subs rest)) + length stk ≤ 64
      → Frees n
      → free_loop
          (suc (rounds n + (rounds_more rest + 1 + fuel)))
          (some (group_node room full))
          p
          stk
          freed
        ≡ backtrack fuel stk (freed ++ (events n ++ events_subs rest) ++ (free_group ∷ []))
  free_rest nil full room i id n p fuel stk freed r e h frees =
      visit_child full room i n p none (1 + fuel) stk freed e (IsRest-head full nil i id n r)
        (next_last full i id n r) (omega arith) frees
      ∙ rw (one-add fuel, append-nil) (last_round fuel room full stk (freed ++ events n))
  free_rest (cons id' n' rest) full room i id n p fuel stk freed r e h frees =
      visit_child full room i n p (some (i + 1)) _ stk freed e
        (IsRest-head full (cons id' n' rest) i id n r) (next_more full rest i id id' n n' r)
        (omega arith) frees
      ∙ rw (regroup (rounds n') (rounds_more rest) fuel) (
          free_rest rest full room (i + 1) id' n' (some (some (i + 1))) fuel stk (freed ++ events n)
            (IsRest-tail full (cons id' n' rest) i id n r) (index_popped (i + 1)) (omega arith)
            (free_node n')
          ∙ ap (λ (t : List Event). backtrack fuel stk (t ++ (free_group ∷ [])))
              (append_assoc freed (events n) (events n' ++ events_subs rest)))

-- On a subtree of at most 64 levels the loop ends within its rounds, and has then freed every node
-- of the subtree exactly once, children before their group, with its handler unreferenced.
pub free_loop-events :
    (n : Node) (extra : ℕ)
    → height n ≤ 64
    → free_loop (rounds n + extra) (some n) none [] [] ≡ some (events n)
free_loop-events n extra h = free_node n extra [] [] (omega arith)
