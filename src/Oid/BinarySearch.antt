-- ===== src/Oid/BinarySearch.antt =====
-- `oid_binary_search` of core/mib_tree.c, the lookup in the sorted sub-identifiers of a group node.
pub mod Correct
use smartsnmp.Base.{
  ℕ, zero, suc, ◌+◌, ◌-◌, ◌/◌, List, ltb, ◌==◌, ◌||◌, not, if◌then◌else◌, length, get_or,
}
use smartsnmp.Base.Int.{ℤ, pos, negsuc}

-- `int low` starts at -1, so it is kept as `next = low + 1`; this is `low + (high - low) / 2`.
unfoldable pub midpoint : ℕ → ℕ → ℕ
midpoint next high = next + (high + 1 - next) / 2 - 1

-- `while (low + 1 < high)`, on fuel; the last `low + 1`.
unfoldable pub search_loop : ℕ → List ℕ → ℕ → ℕ → ℕ → ℕ
unfolding midpoint
search_loop zero arr oid next high = next
search_loop (suc fuel) arr oid next high =
    let mid = midpoint next high in
    let below = search_loop fuel arr oid next mid in
    let above = search_loop fuel arr oid (mid + 1) high in
    if ltb next high then (if ltb oid (get_or arr mid 0) then below else above) else next

-- Each round shortens the range, so its length is fuel enough: `Correct`.
-- Found: `low`. Not found: `-low - 2`, which is `-(low + 1) - 1`, with `low + 1` the place for it.
unfoldable pub oid_binary_search : List ℕ → ℕ → ℤ
unfolding search_loop
oid_binary_search arr oid =
    let next = search_loop (length arr + 1) arr oid 0 (length arr) in
    if next == 0 || not (get_or arr (next - 1) 0 == oid) then negsuc next else pos (next - 1)
