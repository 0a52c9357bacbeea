-- ===== src/Mib/SearchNext/Calls.antt =====
-- The specification of GETNEXT: the handlers it asks, in the order of the tree, and the answer as the
-- first reply among them that is accepted.
use smartsnmp.Base.{ap}
use smartsnmp.Base.{ℕ, ◌≡◌, refl, List, [], ◌∷◌, ◌++◌, reverse}
use smartsnmp.Base.{if◌then◌else◌, ltb, ◌==◌}
use smartsnmp.Mib.Node.{Node, group_node, instance_node, Subs, nil, cons}
use smartsnmp.Mib.Search.{Lua, Variable}
use smartsnmp.Mib.SearchNext.{Next, Verdict, broken, missing, taken, proceed, ask}

-- One question to a handler: its callback, the object identifier of its node, and what is asked.
pub record Call : Type 0 where
  pub callback : ℕ
  pub base : List ℕ
  pub inst_id : List ℕ

-- Every handler below a node, in order; `up` is the way to the node, the last step first.
unfoldable mutual
  pub all_calls : Node → List ℕ → List Call
  all_calls (instance_node c) up = record { callback = c; base = reverse up; inst_id = [] } ∷ []
  all_calls (group_node room s) up = subs_calls s up

  pub subs_calls : Subs → List ℕ → List Call
  subs_calls nil up = []
  subs_calls (cons id n s) up = all_calls n (id ∷ up) ++ subs_calls s up

-- The handlers from an object identifier on: below the children in front of it none, below the child on
-- the way to it those from there on, and below the others all.
unfoldable mutual
  unfolding all_calls subs_calls

  pub calls_from : Node → List ℕ → List ℕ → List Call
  calls_from (instance_node c) oid up =
      record { callback = c; base = reverse up; inst_id = oid } ∷ []
  calls_from (group_node room s) [] up = subs_calls s up
  calls_from (group_node room s) (id ∷ oid) up = subs_from s id oid up

  pub subs_from : Subs → ℕ → List ℕ → List ℕ → List Call
  subs_from nil id oid up = []
  subs_from (cons k n s) id oid up =
      let here = calls_from n oid (k ∷ up) in
      let behind = subs_from s id oid up in
      if k == id
      then here ++ subs_calls s up
      else (if ltb k id then behind else subs_calls (cons k n s) up)

pub proceed-congr :
    (v : Verdict) (f g : Variable → Next)
    → ((var : Variable) → f var ≡ g var)
    → proceed v f ≡ proceed v g
unfolding proceed
proceed-congr broken f g h = refl
proceed-congr (missing var) f g h = h var
proceed-congr (taken r) f g h = refl

module _ (lua_pcall : Lua) (view : List ℕ) where
  -- The calls in turn; `end` is what is done when no reply is accepted.
  unfoldable pub answer : List Call → (Variable → Next) → Variable → Next
  unfolding proceed ask
  answer [] end var = end var
  answer (call ∷ calls) end var =
      proceed (ask lua_pcall view call.callback var call.base call.inst_id) (answer calls end)

  pub answer-append :
      (xs ys : List Call) (end : Variable → Next) (var : Variable)
      → answer (xs ++ ys) end var ≡ answer xs (answer ys end) var
  unfolding answer
  answer-append [] ys end var = refl
  answer-append (x ∷ xs) ys end var =
      proceed-congr (ask lua_pcall view x.callback var x.base x.inst_id) _ _
        (answer-append xs ys end)

  pub answer-congr :
      (xs : List Call) (f g : Variable → Next) (var : Variable)
      → ((v : Variable) → f v ≡ g v)
      → answer xs f var ≡ answer xs g var
  unfolding answer
  answer-congr [] f g var h = h var
  answer-congr (x ∷ xs) f g var h =
      proceed-congr (ask lua_pcall view x.callback var x.base x.inst_id) _ _
        λ v. answer-congr xs f g v h

  -- One call, by what becomes of it.
  pub answer_step :
      (call : Call) (calls : List Call) (end : Variable → Next) (var : Variable) (v : Verdict)
      → ask lua_pcall view call.callback var call.base call.inst_id ≡ v
      → answer (call ∷ calls) end var ≡ proceed v (answer calls end)
  unfolding answer
  answer_step call calls end var v e = ap (λ w. proceed w (answer calls end)) e
