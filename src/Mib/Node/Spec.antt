-- ===== src/Mib/Node/Spec.antt =====
-- What a MIB tree stands for, independent of its arrays: the handler registered at an object
-- identifier, and the well-formedness of the nodes.
use smartsnmp.Base.{true}
use smartsnmp.Base.{
  Bool, false, ◌&&◌, ℕ, subst, Bool-cases, inl, inr, ◌≡◌, refl, ◌≤◌, ◌<◌, List, [], ◌∷◌, Option,
  none, some, ◌==◌, if◌then◌else◌, All,
}
use smartsnmp.Mib.Node.{Node, group_node, instance_node, Subs, nil, cons, sub_ids, sub_id_cnt}

-- The child with a sub-identifier, by a linear search.
unfoldable pub find : ℕ → Subs → Option Node
find id nil = none
find id (cons k n s) = if k == id then some n else find id s

-- The node at an object identifier.
unfoldable pub node_at : Node → List ℕ → Option Node
unfolding find
node_at node [] = some node
node_at (instance_node c) (x ∷ oid) = none
node_at (group_node room s) (x ∷ oid) = elim (find x s) [ none ↦ none | some n ↦ node_at n oid ]

-- The handler registered at an object identifier.
unfoldable pub handler_at : Node → List ℕ → Option ℕ
unfolding find
handler_at (instance_node c) [] = some c
handler_at (group_node room s) [] = none
handler_at (instance_node c) (x ∷ oid) = none
handler_at (group_node room s) (x ∷ oid) = elim (find x s) [
  | none ↦ none
  | some n ↦ handler_at n oid
]

abbrev mutual
  -- The sub-identifiers of every group ascend, no two equal.
  pub IsTree : Node → Type 0
  IsTree (group_node room s) = IsForest s
  IsTree (instance_node c) = Unit {0}

  pub IsForest : Subs → Type 0
  IsForest nil = Unit {0}
  IsForest (cons id n s) = All (λ k. id < k) (sub_ids s) × IsTree n × IsForest s

abbrev mutual
  -- The arrays of every group have room for its entries.
  pub HasRoom : Node → Type 0
  HasRoom (group_node room s) = (1 ≤ room) × (sub_id_cnt s ≤ room) × AllRoom s
  HasRoom (instance_node c) = Unit {0}

  pub AllRoom : Subs → Type 0
  AllRoom nil = Unit {0}
  AllRoom (cons id n s) = HasRoom n × AllRoom s

-- One step into a group, by what is found there.
module _ (room y : ℕ) (q : List ℕ) (s : Subs) where
  pub handler_at_step :
      (n : Node) → find y s ≡ some n → handler_at (group_node room s) (y ∷ q) ≡ handler_at n q
  unfolding handler_at
  handler_at_step n e = rw (handler_at, e) refl

  pub handler_at_miss : find y s ≡ none → handler_at (group_node room s) (y ∷ q) ≡ none
  unfolding handler_at
  handler_at_miss e = rw (handler_at, e) refl

  pub node_at_step :
      (n : Node) → find y s ≡ some n → node_at (group_node room s) (y ∷ q) ≡ node_at n q
  unfolding node_at
  node_at_step n e = rw (node_at, e) refl

  pub node_at_miss : find y s ≡ none → node_at (group_node room s) (y ∷ q) ≡ none
  unfolding node_at
  node_at_miss e = rw (node_at, e) refl

-- Groups that find the same child answer alike.
pub handler_at-congr :
    (room room' y : ℕ) (q : List ℕ) (s s' : Subs)
    → find y s ≡ find y s'
    → handler_at (group_node room s) (y ∷ q) ≡ handler_at (group_node room' s') (y ∷ q)
unfolding handler_at
handler_at-congr room room' y q s s' e = cc

-- The child that is found is a tree.
pub find-IsTree : (s : Subs) (id : ℕ) (n : Node) → IsForest s → find id s ≡ some n → IsTree n
unfolding find
find-IsTree nil id n h e = cc
find-IsTree (cons k m s) id n h e = elim (Bool-cases (k == id)) [
  | inl t ↦ (let p : some m ≡ some n = rw t at e in let q : m ≡ n = cc in subst IsTree q h.1)
  | inr f ↦ find-IsTree s id n h.2 (rw f at e)
]

-- `a` is a prefix of `b`, as a test.
unfoldable pub covers : List ℕ → List ℕ → Bool
covers [] b = true
covers (x ∷ a) [] = false
covers (x ∷ a) (y ∷ b) = (x == y) && covers a b
