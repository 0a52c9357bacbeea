-- ===== src/Mib/SearchNext/Resume.antt =====
-- The loop of GETNEXT while it still matches the object identifier, against the calls from there on.
use smartsnmp.Mib.SearchNext.Match.{all_greater, all_greater}
use smartsnmp.Mib.SearchNext.Rounds.{found_round, next_round, first_round, end_round}
use smartsnmp.Base.{ltb→lt}
use smartsnmp.Base.{ltb-false}
use smartsnmp.Base.{ltb}
use smartsnmp.Base.{inr}
use smartsnmp.Mib.SearchNext.Calls.{answer-append}
use smartsnmp.Base.{Bool-cases}
use smartsnmp.Mib.SearchNext.{end_of_view}
use smartsnmp.Base.{inl}
use smartsnmp.Mib.SearchNext.{next}
use smartsnmp.Mib.Node.Slots.{AtVacant}
use smartsnmp.Mib.SearchNext.Calls.{answer-congr}
use smartsnmp.Mib.Node.Rest.{IsRest, IsRest-head, IsRest-ident}
use smartsnmp.Base.{◌-◌}
use smartsnmp.Mib.SearchNext.Visit.{instance_round}
use smartsnmp.Mib.Node.{found}
use smartsnmp.Mib.Node.{vacant}
use native.Mathlib.Numerals.{one-add}
use smartsnmp.Base.{List, [], ◌∷◌, ◌++◌}
use smartsnmp.Base.{[]}
use smartsnmp.Base.{some}
use smartsnmp.Mib.SearchNext.Match.{all_greater, Hit}
use smartsnmp.Mib.SearchNext.Calls.{all_calls}
use smartsnmp.Base.{length}
use smartsnmp.Mib.SearchNext.Match.{all_greater, Greater}
use smartsnmp.Mib.Node.{slot_of}
use smartsnmp.Mib.SearchNext.{inst_id_of}
use smartsnmp.Base.{List}
use smartsnmp.Base.{ℕ, suc, ◌+◌, ◌≡◌, ◌≤◌, ◌<◌, ◌∙◌, refl, sym, arith}
use smartsnmp.Mib.Node.{Node, group_node, instance_node, Subs, nil, cons, sub_id_cnt}
use smartsnmp.Mib.Search.{Lua, Variable}
use smartsnmp.Mib.SearchNext.Match.{all_greater, hit, greater, no_greater}
use smartsnmp.Mib.Node.Slots.{slot_of_view}
use smartsnmp.Mib.Node.Spec.{IsTree, find-IsTree}
use smartsnmp.Mib.Delete.Walk.{rounds, rounds_more, rounds_subs, height, height_subs}
use smartsnmp.Mib.SearchNext.{Entry, settle, entry_of, sub_id_at, next_loop}
use smartsnmp.Mib.SearchNext.Calls.{Call, subs_calls, calls_from, subs_from, answer}
use smartsnmp.Mib.SearchNext.Visit.{backtrack, visit_node, after_child}

rounds_more_le : (s : Subs) → rounds_more s ≤ rounds_subs s
unfolding rounds_subs rounds_more
rounds_more_le nil = omega arith
rounds_more_le (cons id n s) = omega arith

suc_plus : (a b : ℕ) → suc a + b ≡ suc (a + b)
suc_plus a b = omega arith

shift : (a b fuel : ℕ) → suc (a + (b + 1)) + fuel ≡ suc (a + (b + 1 + fuel))
shift a b fuel = omega arith

module _ (lua_pcall : Lua) (view orig_oid : List ℕ) where
  -- A number of rounds within which the loop, while it matches, has asked the handlers from the object
  -- identifier on.
  record Run (n : Node) (oid : List ℕ) : Type 0 where
    cost : ℕ
    few : cost ≤ rounds n + 1
    run :
        (fuel : ℕ) (up : List ℕ) (stk : List Entry) (var : Variable)
        → height n + length stk ≤ 64
        → next_loop lua_pcall view orig_oid
            (cost + fuel)
            (some n)
            0
            (settle (some n) oid)
            up
            stk
            var
          ≡ answer lua_pcall view
              (calls_from n oid up)
              (backtrack lua_pcall view orig_oid fuel up stk)
              var

  Run-instance : (c : ℕ) (oid : List ℕ) → Run (instance_node c) oid
  unfolding rounds settle calls_from answer inst_id_of
  Run-instance c oid = record {
    cost = 1;
    few = omega arith;
    run = λ fuel up stk var h.
        rw (one-add fuel) (instance_round lua_pcall view orig_oid fuel 0 up stk var c (some oid));
  }

  Run-whole : (room : ℕ) (s : Subs) → Run (group_node room s) []
  unfolding settle calls_from all_calls
  Run-whole room s = record {
    cost = rounds (group_node room s);
    few = omega arith;
    run = λ fuel up stk var h.
        visit_node lua_pcall view orig_oid (group_node room s) fuel up stk var h;
  }

  -- The children behind the one that was asked for.
  behind :
      (room : ℕ) (s rest : Subs) (i id : ℕ) (n : Node) (fuel : ℕ) (up : List ℕ) (stk : List Entry)
      (var : Variable) (calls : List Call)
      → IsRest s (cons id n rest) i
      → suc (height_subs rest) + length stk ≤ 64
      → answer lua_pcall view calls
          (backtrack lua_pcall view orig_oid
            (rounds_more rest + 1 + fuel)
            (id ∷ up)
            (entry_of i room s ∷ stk))
          var
        ≡ answer lua_pcall view
            (calls ++ subs_calls rest up)
            (backtrack lua_pcall view orig_oid fuel up stk)
            var
  behind room s rest i id n fuel up stk var calls r h =
      answer-congr lua_pcall view calls _ _ var
        (after_child lua_pcall view orig_oid rest s room i id n fuel up stk r h)
      ∙ sym (answer-append lua_pcall view calls (subs_calls rest up) _ var)

  module _ (room id : ℕ) (oid : List ℕ) (s : Subs) where
    -- The child of the identifier, matched further, and the children behind it.
    Run-found :
        (i : ℕ) (n : Node) (at : Hit s id i n)
        → slot_of id s ≡ found i n
        → Run n oid
        → Run (group_node room s) (id ∷ oid)
    unfolding rounds settle calls_from sub_id_at height
    Run-found i n at e r = record {
      cost = suc (r.cost + (rounds_more at.rest + 1));
      few = omega (arith, at.few, r.few, rounds_more_le s);
      run = λ fuel up stk var h.
          let more = rounds_more at.rest + 1 + fuel in
          rw (shift r.cost (rounds_more at.rest) fuel) (
            found_round lua_pcall view orig_oid (r.cost + more) 0 id oid up stk var room s i n e
              (omega (arith, at.low))
            ∙ rw (IsRest-head s at.rest i id n at.is_rest, IsRest-ident s at.rest i id n at.is_rest)
                (r.run more (id ∷ up) (entry_of i room s ∷ stk) var (omega (arith, at.low)))
            ∙ behind room s at.rest i id n fuel up stk var (calls_from n oid (id ∷ up)) at.is_rest
                (omega (arith, at.low))
            ∙ rw (at.calls oid up) refl);
    }

    Run-next :
        (i : ℕ) (at : Greater s id i)
        → slot_of id s ≡ vacant i
        → 0 < i
        → i < sub_id_cnt s
        → Run (group_node room s) (id ∷ oid)
    unfolding rounds settle calls_from sub_id_at height
    Run-next i at e p q = record {
      cost = suc (rounds at.node + (rounds_more at.rest + 1));
      few = omega (arith, at.few, rounds_more_le s);
      run = λ fuel up stk var h.
          let more = rounds_more at.rest + 1 + fuel in
          rw (shift (rounds at.node) (rounds_more at.rest) fuel) (
            next_round lua_pcall view orig_oid (rounds at.node + more) 0 id oid up stk var room s i
              e p q (omega (arith, at.low))
            ∙ rw
                (
                  IsRest-head s at.rest i at.head at.node at.is_rest,
                  IsRest-ident s at.rest i at.head at.node at.is_rest,
                )
                (visit_node lua_pcall view orig_oid at.node more (at.head ∷ up)
                  (entry_of i room s ∷ stk) var (omega (arith, at.low)))
            ∙ behind room s at.rest i at.head at.node fuel up stk var
                (all_calls at.node (at.head ∷ up)) at.is_rest (omega (arith, at.low))
            ∙ rw (at.calls oid up) refl);
    }

    Run-first :
        slot_of id s ≡ vacant 0
        → 0 < sub_id_cnt s
        → ((up : List ℕ) → subs_from s id oid up ≡ subs_calls s up)
        → Run (group_node room s) (id ∷ oid)
    unfolding settle calls_from all_calls
    Run-first e q c = record {
      cost = suc (rounds (group_node room s));
      few = omega arith;
      run = λ fuel up stk var h. rw (suc_plus (rounds (group_node room s)) fuel) (
          first_round lua_pcall view orig_oid (rounds (group_node room s) + fuel) 0 id oid up stk
            var room s e q
          ∙ visit_node lua_pcall view orig_oid (group_node room s) fuel up stk var h
          ∙ rw (c up) refl);
    }

    Run-end :
        (i : ℕ)
        → slot_of id s ≡ vacant i
        → i ≡ sub_id_cnt s
        → ((up : List ℕ) → subs_from s id oid up ≡ [])
        → Run (group_node room s) (id ∷ oid)
    unfolding rounds settle calls_from answer
    Run-end i e q c = record {
      cost = 1;
      few = omega arith;
      run = λ fuel up stk var h.
          rw (one-add fuel, c up)
            (end_round lua_pcall view orig_oid fuel 0 id oid up stk var room s i e q);
    }

    Run-vacant : (i : ℕ) → AtVacant s id (slot_of id s) i → Run (group_node room s) (id ∷ oid)
    Run-vacant i at = elim (Bool-cases (ltb i (sub_id_cnt s))) [
      | inr f ↦
          let out : sub_id_cnt s ≤ i = ltb-false i (sub_id_cnt s) f in
          Run-end i at.is_vacant (omega (arith, at.inside))
            λ up. no_greater s id oid up λ k p. at.below k (omega arith)
      | inl t ↦
          let p : i < sub_id_cnt s = ltb→lt i (sub_id_cnt s) t in
          elim (Bool-cases (ltb 0 i)) [
            | inl t' ↦
                Run-next i (greater s id i p at.below at.above) at.is_vacant (ltb→lt 0 i t') p
            | inr f ↦
                let z : i ≡ 0 = omega (arith, ltb-false 0 i f) in
                Run-first (rw z at at.is_vacant) (omega arith) λ up.
                  all_greater s id oid up (omega arith) (at.above 0 (omega arith) (omega arith))
          ]
    ]

  Run-node : (oid : List ℕ) (n : Node) → IsTree n → Run n oid
  Run-node oid (instance_node c) h = Run-instance c oid
  Run-node [] (group_node room s) h = Run-whole room s
  Run-node (id ∷ oid) (group_node room s) h = elim (slot_of_view id s h) [
    | inl (i, n, at) ↦
        Run-found room id oid s i n (hit s id i n h at.inside at.at_index at.at_ptr) at.is_found
          (Run-node oid n (find-IsTree s id n h at.in_spec))
    | inr (i, at) ↦ Run-vacant room id oid s i at
  ]

  -- On a sorted subtree of at most 64 levels, with one round more than the subtree has, the loop that still has
  -- to match `oid` gives the first reply accepted among the handlers from `oid` on.
  pub next_loop-calls :
      (n : Node) (oid up : List ℕ) (extra : ℕ) (var : Variable)
      → IsTree n
      → height n ≤ 64
      → next_loop lua_pcall view orig_oid
          (rounds n + 1 + extra)
          (some n)
          0
          (settle (some n) oid)
          up
          []
          var
        ≡ answer lua_pcall view (calls_from n oid up) (λ v. next (end_of_view orig_oid v)) var
  unfolding backtrack
  next_loop-calls n oid up extra var h low =
      let r = Run-node oid n h in
      let split : rounds n + 1 + extra ≡ r.cost + (rounds n + 1 - r.cost + extra) =
        omega (arith, r.few) in
      rw split (r.run (rounds n + 1 - r.cost + extra) up [] var (omega arith))
