-- ===== src/Mib/Node/Slots.antt =====
-- The search in a group node, by what it finds.
use smartsnmp.Mib.Node.{sub_ptr}
use smartsnmp.Base.{ℕ, ◌≡◌, ◌≤◌, ◌<◌, ◌≢◌, ◌⊎◌, inl, inr, refl, arith}
use smartsnmp.Base.{none, some, get_or}
use smartsnmp.Base.Int.{ℤ, pos, negsuc}
use smartsnmp.Oid.BinarySearch.{oid_binary_search}
use smartsnmp.Oid.BinarySearch.Correct.{IsAscending, search-pos, search-neg}
use smartsnmp.Mib.Node.{
  Node, Subs, nil, cons, Slot, found, vacant, sub_ids, sub_id_cnt, slot_of, child_at,
}
use smartsnmp.Mib.Node.Spec.{find, IsForest}
use smartsnmp.Mib.Node.Arrays.{Ascends, Ascends-IsAscending, find-sub_ptr, find-missing}

pub IsForest-Ascends : (s : Subs) → IsForest s → Ascends (sub_ids s)
unfolding sub_ids
IsForest-Ascends nil h = tt
IsForest-Ascends (cons id n s) h = (h.0, IsForest-Ascends s h.2)

-- `slot` is the child `n` that the specification finds, at its index.
pub record AtFound (s : Subs) (id : ℕ) (slot : Slot) (i : ℕ) (n : Node) : Type 0 where
  pub is_found : slot ≡ found i n
  pub inside : i < sub_id_cnt s
  pub at_index : get_or (sub_ids s) i 0 ≡ id
  pub at_ptr : sub_ptr s i ≡ some n
  pub in_spec : find id s ≡ some n

-- `slot` is the place that keeps the order, for a sub-identifier that is missing.
pub record AtVacant (s : Subs) (id : ℕ) (slot : Slot) (i : ℕ) : Type 0 where
  pub is_vacant : slot ≡ vacant i
  pub inside : i ≤ sub_id_cnt s
  pub below : (k : ℕ) → k < i → get_or (sub_ids s) k 0 < id
  pub above : (k : ℕ) → i ≤ k → k < sub_id_cnt s → id < get_or (sub_ids s) k 0
  pub in_spec : find id s ≡ none

abbrev pub SlotView : Subs → ℕ → Slot → Type 0
SlotView s id slot =
    ((i : ℕ) × (n : Node) × AtFound s id slot i n) ⊎ ((i : ℕ) × AtVacant s id slot i)

ℤ-cases : (z : ℤ) → ((i : ℕ) × (z ≡ pos i)) ⊎ ((i : ℕ) × (z ≡ negsuc i))
ℤ-cases (pos i) = inl (i, refl)
ℤ-cases (negsuc i) = inr (i, refl)

vacant_missing :
    (s : Subs) (id i : ℕ)
    → ((k : ℕ) → k < i → get_or (sub_ids s) k 0 < id)
    → ((k : ℕ) → i ≤ k → k < sub_id_cnt s → id < get_or (sub_ids s) k 0)
    → (k : ℕ) → k < sub_id_cnt s
    → get_or (sub_ids s) k 0 ≢ id
vacant_missing s id i lo hi k p e = ground (arith, lo k, hi k)

-- In a sorted group the search finds the child of the specification, or the place for a new one.
pub slot_of_view : (id : ℕ) (s : Subs) → IsForest s → SlotView s id (slot_of id s)
unfolding slot_of sub_id_cnt
slot_of_view id s h = elim (ℤ-cases (oid_binary_search (sub_ids s) id)) [
  | inl (i, e) ↦
      (let (lt, at) = search-pos (sub_ids s) id sorted i e in
        let (n, p, q) = find-sub_ptr s i id (IsForest-Ascends s h) lt at in
        inl (
          i,
          n,
          record {
            is_found = rw (e, slot_of) (rw (p, child_at) refl);
            inside = lt;
            at_index = at;
            at_ptr = p;
            in_spec = q;
          },
        ))
  | inr (i, e) ↦
      (let (le, lo, hi) = search-neg (sub_ids s) id sorted i e in
        inr (
          i,
          record {
            is_vacant = rw (e, slot_of) refl;
            inside = le;
            below = lo;
            above = hi;
            in_spec = find-missing s id (vacant_missing s id i lo hi);
          },
        ))
]
  where
    sorted : IsAscending (sub_ids s)
    sorted = Ascends-IsAscending (sub_ids s) (IsForest-Ascends s h)
