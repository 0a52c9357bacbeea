-- ===== src/Mib/Insert/Register.antt =====
-- `mib_node_reg` as a whole.
use smartsnmp.Base.{ap, ℕ, ◌≡◌, ◌≤◌, ◌<◌, ◌⊎◌, ◌↔◌, inl, inr, refl, sym, ◌∙◌, arith}
use smartsnmp.Base.{Option, List, none, some, length}
use smartsnmp.Base.Int.{ℤ, pos, negsuc}
use smartsnmp.Mib.Node.{Node}
use smartsnmp.Mib.Node.Spec.{IsTree, HasRoom}
use smartsnmp.Mib.Insert.Room.{IsModest, insert-HasRoom}
use smartsnmp.Mib.Insert.{
  Inserted, inserted, refused, fault, reg_result, mib_tree_instance_insert, mib_node_reg,
}
use smartsnmp.Mib.Insert.Lookup.{Adds, insert-Adds}
use smartsnmp.Mib.Insert.Keeps.{insert-IsTree}
use smartsnmp.Mib.Insert.Refused.{Overlaps, refused_iff}

Inserted-cases : (r : Inserted) → ((n : Node) × (r ≡ inserted n)) ⊎ (r ≡ refused) ⊎ (r ≡ fault)
Inserted-cases (inserted n) = inl (n, refl)
Inserted-cases refused = inr (inl refl)
Inserted-cases fault = inr (inr refl)

same_root : (n m : Node) → ◌≡◌ {A = Option (ℤ × Node)} (some (pos 0, n)) (some (pos 0, m)) → n ≡ m
same_root n m h = cc

module _ (oid : List ℕ) (callback : ℕ) (root : Node) (tree : IsTree root) where
  abbrev outcome : Inserted
  outcome = mib_tree_instance_insert oid callback root

  reg_early :
      (length oid ≡ 0) ⊎ (64 < length oid) → mib_node_reg oid callback root ≡ some (negsuc 0, root)
  unfolding mib_node_reg
  reg_early h = ground arith

  reg_runs :
      ¬ (length oid ≡ 0)
      → length oid ≤ 64
      → mib_node_reg oid callback root ≡ reg_result root outcome
  unfolding mib_node_reg
  reg_runs ne le = ground arith

  length_cases : (length oid ≡ 0) ⊎ (64 < length oid) ⊎ (¬ (length oid ≡ 0)) × (length oid ≤ 64)
  length_cases = omega arith

  -- What `reg_result` makes of each outcome.
  reg_of_refused : outcome ≡ refused → reg_result root outcome ≡ some (negsuc 0, root)
  unfolding reg_result
  reg_of_refused e = rw e refl

  reg_of_inserted : (n : Node) → outcome ≡ inserted n → reg_result root outcome ≡ some (pos 0, n)
  unfolding reg_result
  reg_of_inserted n e = rw e refl

  reg_of_fault : outcome ≡ fault → reg_result root outcome ≡ none
  unfolding reg_result
  reg_of_fault e = rw e refl

  -- On a sorted tree whose entries are inside the capacities (`HasRoom`), none of which is above 43688
  -- (`IsModest`), `mib_node_reg` returns 0 or -1 and does not crash; on -1 it leaves the tree as it was, and on
  -- 0 the new tree has its groups sorted and its entries inside the capacities.
  pub reg_returns :
      HasRoom root
      → IsModest root
      → (mib_node_reg oid callback root ≡ some (negsuc 0, root))
        ⊎ ((root' : Node) × (mib_node_reg oid callback root ≡ some (pos 0, root'))
            × IsTree root'
            × HasRoom root')
  reg_returns room modest = elim length_cases [
    | inl z ↦ inl (reg_early (inl z))
    | inr (inl l) ↦ inl (reg_early (inr l))
    | inr (inr (ne, le)) ↦ elim (Inserted-cases outcome) [
      | inl (n, e) ↦ inr (
        n,
        reg_runs ne le ∙ reg_of_inserted n e,
        rw e at (insert-IsTree oid callback root tree),
        rw e at (insert-HasRoom oid callback root tree room modest),
      )
      | inr (inl e) ↦ inl (reg_runs ne le ∙ reg_of_refused e)
      | inr (inr e) ↦ absurd (rw e at (insert-HasRoom oid callback root tree room modest))
    ]
  ]

  -- It returns -1 exactly for an empty object identifier, for one longer than 64, and on an overlap.
  pub reg_refused_iff :
      (mib_node_reg oid callback root ≡ some (negsuc 0, root))
      ↔ ((length oid ≡ 0) ⊎ (64 < length oid) ⊎ Overlaps root oid)
  reg_refused_iff = (reg_refused→, reg_refused←)
    where
      reg_refused→ :
          mib_node_reg oid callback root ≡ some (negsuc 0, root)
          → (length oid ≡ 0) ⊎ (64 < length oid) ⊎ Overlaps root oid
      reg_refused→ h = elim length_cases [
        | inl z ↦ inl z
        | inr (inl l) ↦ inr (inl l)
        | inr (inr (ne, le)) ↦ elim (Inserted-cases outcome) [
          | inl (n, e) ↦ cc (h, reg_runs ne le ∙ reg_of_inserted n e)
          | inr (inl e) ↦ inr (inr ((refused_iff oid callback root tree).0 e))
          | inr (inr e) ↦ cc (h, reg_runs ne le ∙ reg_of_fault e)
        ]
      ]

      reg_refused← :
          (length oid ≡ 0) ⊎ (64 < length oid) ⊎ Overlaps root oid
          → mib_node_reg oid callback root ≡ some (negsuc 0, root)
      reg_refused← (inl z) = reg_early (inl z)
      reg_refused← (inr (inl l)) = reg_early (inr l)
      reg_refused← (inr (inr o)) = elim length_cases [
        | inl z ↦ reg_early (inl z)
        | inr (inl l) ↦ reg_early (inr l)
        | inr (inr (ne, le)) ↦
            reg_runs ne le ∙ reg_of_refused ((refused_iff oid callback root tree).1 o)
      ]

  reg-inserted :
      (root' : Node)
      → mib_node_reg oid callback root ≡ some (pos 0, root')
      → outcome ≡ inserted root'
  reg-inserted root' h = elim length_cases [
    | inl z ↦ cc (reg_early (inl z))
    | inr (inl l) ↦ cc (reg_early (inr l))
    | inr (inr (ne, le)) ↦ elim (Inserted-cases outcome) [
      | inl (n, e) ↦
          e ∙ ap inserted (same_root n root' (sym (reg_runs ne le ∙ reg_of_inserted n e) ∙ h))
      | inr (inl e) ↦ cc (reg_runs ne le ∙ reg_of_refused e)
      | inr (inr e) ↦ cc (h, reg_runs ne le ∙ reg_of_fault e)
    ]
  ]

  -- Where it returns 0, the new tree has its groups sorted.
  pub reg-IsTree :
      (root' : Node) → mib_node_reg oid callback root ≡ some (pos 0, root') → IsTree root'
  reg-IsTree root' h = rw (reg-inserted root' h) at (insert-IsTree oid callback root tree)

  -- Where it returns 0, exactly the handler at `oid` is new.
  pub reg-Adds :
      (root' : Node)
      → mib_node_reg oid callback root ≡ some (pos 0, root')
      → Adds oid callback root root'
  reg-Adds root' h = rw (reg-inserted root' h) at (insert-Adds oid callback root tree)
