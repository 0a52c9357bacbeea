-- ===== src/Oid/BinarySearch/Correct.antt =====
-- The binary search by its loop invariant.
use smartsnmp.Base.{ℕ, zero, suc, ◌+◌, ◌-◌, ◌≡◌, ◌≤◌, ◌<◌, ◌≢◌, ◌⊎◌, inl, inr, subst, arith}
use smartsnmp.Base.{List, length, get_or, ltb, ltb→lt, ltb-false, Bool-cases}
use smartsnmp.Base.Int.{pos, negsuc}
use smartsnmp.Oid.BinarySearch.{midpoint, search_loop, oid_binary_search}

-- The sub-identifiers are in ascending order, no two equal.
abbrev pub IsAscending : List ℕ → Type 0
IsAscending arr = (i j : ℕ) → i < j → j < length arr → get_or arr i 0 < get_or arr j 0

-- `next` splits the array: not above `oid` before it, above `oid` from it on.
pub record Splits (arr : List ℕ) (oid next : ℕ) : Type 0 where
  pub inside : next ≤ length arr
  pub below : (i : ℕ) → i < next → get_or arr i 0 ≤ oid
  pub above : (i : ℕ) → next ≤ i → i < length arr → oid < get_or arr i 0

-- The loop reads only inside the range, so inside the array.
pub midpoint_bounds :
    (next high : ℕ) → next < high → (next ≤ midpoint next high) × (midpoint next high < high)
unfolding midpoint
midpoint_bounds next high h = omega arith

fuel_below :
    (next high fuel : ℕ) → next < high → high - next < suc fuel → midpoint next high - next < fuel
fuel_below next high fuel h f = omega (arith, midpoint_bounds next high h)

fuel_above :
    (next high fuel : ℕ)
    → next < high
    → high - next < suc fuel
    → high - (midpoint next high + 1) < fuel
fuel_above next high fuel h f = omega (arith, midpoint_bounds next high h)

module _ (arr : List ℕ) (oid : ℕ) (sorted : IsAscending arr) where
  record Inv (next high : ℕ) : Type 0 where
    ordered : next ≤ high
    inside : high ≤ length arr
    below : (i : ℕ) → i < next → get_or arr i 0 ≤ oid
    above : (i : ℕ) → high ≤ i → i < length arr → oid < get_or arr i 0

  go_below :
      (next mid high : ℕ)
      → next ≤ mid
      → mid < high
      → oid < get_or arr mid 0
      → Inv next high
      → Inv next mid
  go_below next mid high a b c inv = record {
    ordered = a;
    inside = omega arith;
    below = inv.below;
    above = λ i p q. grind (arith, sorted mid i);
  }

  go_above :
      (next mid high : ℕ)
      → next ≤ mid
      → mid < high
      → get_or arr mid 0 ≤ oid
      → Inv next high
      → Inv (mid + 1) high
  go_above next mid high a b c inv = record {
    ordered = omega arith;
    inside = inv.inside;
    below = λ i p. grind (arith, sorted i mid);
    above = inv.above;
  }

  below_ok :
      (next high : ℕ)
      → next < high
      → oid < get_or arr (midpoint next high) 0
      → Inv next high
      → Inv next (midpoint next high)
  below_ok next high h c inv =
      let (a, b) = midpoint_bounds next high h in go_below next (midpoint next high) high a b c inv

  above_ok :
      (next high : ℕ)
      → next < high
      → get_or arr (midpoint next high) 0 ≤ oid
      → Inv next high
      → Inv (midpoint next high + 1) high
  above_ok next high h c inv =
      let (a, b) = midpoint_bounds next high h in go_above next (midpoint next high) high a b c inv

  search_loop-Splits :
      (fuel next high : ℕ)
      → high - next < fuel
      → Inv next high
      → Splits arr oid (search_loop fuel arr oid next high)
  unfolding search_loop
  search_loop-Splits zero next high f inv = absurd (omega arith)
  search_loop-Splits (suc fuel) next high f inv = elim (Bool-cases (ltb next high)) [
    | inl lt ↦ rw lt (elim (Bool-cases (ltb oid (get_or arr (midpoint next high) 0))) [
      | inl p ↦ rw p (
          search_loop-Splits fuel next (midpoint next high)
            (fuel_below next high fuel (ltb→lt _ _ lt) f)
            (below_ok next high (ltb→lt _ _ lt) (ltb→lt _ _ p) inv))
      | inr p ↦ rw p (
          search_loop-Splits fuel (midpoint next high + 1) high
            (fuel_above next high fuel (ltb→lt _ _ lt) f)
            (above_ok next high (ltb→lt _ _ lt) (ltb-false _ _ p) inv))
    ])
    | inr ge ↦ rw ge (record {
      inside = omega (arith, inv.ordered, inv.inside);
      below = inv.below;
      above = λ i p q. inv.above i (omega (arith, ltb-false _ _ ge)) q;
    })
  ]

  Splits-search : Splits arr oid (search_loop (length arr + 1) arr oid 0 (length arr))
  Splits-search = search_loop-Splits (length arr + 1) 0 (length arr) (omega arith) (record {
    ordered = omega arith;
    inside = omega arith;
    below = λ i p. absurd (omega arith);
    above = λ i p q. absurd (omega arith);
  })

  -- A result `i >= 0` is the index of the sub-identifier.
  pub search-pos :
      (i : ℕ) → oid_binary_search arr oid ≡ pos i → (i < length arr) × (get_or arr i 0 ≡ oid)
  unfolding oid_binary_search
  search-pos i e = ground (arith, Splits-search)

  neg_inversion :
      (n : ℕ)
      → oid_binary_search arr oid ≡ negsuc n
      → (search_loop (length arr + 1) arr oid 0 (length arr) ≡ n)
        × ((n ≡ 0) ⊎ (get_or arr (n - 1) 0 ≢ oid))
  unfolding oid_binary_search
  neg_inversion n e = ground arith

  below_missing :
      (n i : ℕ) → get_or arr (n - 1) 0 < oid → n ≤ length arr → i < n → get_or arr i 0 < oid
  below_missing n i h inside p = grind (arith, sorted i (n - 1))

  missing :
      (n : ℕ)
      → Splits arr oid n
      → (n ≡ 0) ⊎ (get_or arr (n - 1) 0 ≢ oid)
      → (n ≤ length arr)
        × ((i : ℕ) → i < n → get_or arr i 0 < oid)
        × ((i : ℕ) → n ≤ i → i < length arr → oid < get_or arr i 0)
  missing n s (inl z) = (s.inside, λ i p. absurd (omega arith), s.above)
  missing n s (inr ne) = (
    s.inside,
    λ i p. below_missing n i (omega (arith, s.below (n - 1) (omega arith), ne)) s.inside p,
    s.above,
  )

  -- A negative result -n - 1 says that `oid` is missing, and that its place is at `n`.
  pub search-neg :
      (n : ℕ)
      → oid_binary_search arr oid ≡ negsuc n
      → (n ≤ length arr)
        × ((i : ℕ) → i < n → get_or arr i 0 < oid)
        × ((i : ℕ) → n ≤ i → i < length arr → oid < get_or arr i 0)
  search-neg n e =
      let (last, why) = neg_inversion n e in
      missing n (subst (λ k. Splits arr oid k) last Splits-search) why
