-- ===== src/Mib/Delete/Walk.antt =====
-- The recursive traversal that `__mib_tree_delete` of core/mib_tree.c stands for: what it frees, the
-- rounds it takes and how deep it goes.
use Prim.Native.Nat.{max}
use smartsnmp.Base.{ℕ, suc, ◌+◌, List, [], ◌∷◌, ◌++◌}
use smartsnmp.Mib.Node.{Node, group_node, instance_node, Subs, nil, cons}
use smartsnmp.Mib.Delete.{Event, free_group, unref}

-- Children before their group, in the order of the sub-identifiers.
unfoldable mutual
  pub events : Node → List Event
  events (instance_node c) = unref c ∷ []
  events (group_node room s) = events_subs s ++ (free_group ∷ [])

  pub events_subs : Subs → List Event
  events_subs nil = []
  events_subs (cons id n s) = events n ++ events_subs s

-- The rounds of the loop that a node takes; an empty group has one for its null pointer.
unfoldable mutual
  pub rounds : Node → ℕ
  rounds (instance_node c) = 1
  rounds (group_node room s) = rounds_subs s + 1

  pub rounds_subs : Subs → ℕ
  rounds_subs nil = 2
  rounds_subs (cons id n s) = rounds n + 1 + rounds_more s

  pub rounds_more : Subs → ℕ
  rounds_more nil = 0
  rounds_more (cons id n s) = rounds n + 1 + rounds_more s

unfoldable mutual
  -- The groups on the longest path.
  pub height : Node → ℕ
  height (instance_node c) = 0
  height (group_node room s) = suc (height_subs s)

  pub height_subs : Subs → ℕ
  height_subs nil = 0
  height_subs (cons id n s) = max (height n) (height_subs s)
