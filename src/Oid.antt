-- ===== src/Oid.antt =====
-- Comparison of object identifiers, `oid_cmp` and `oid_cover` of core/mib_tree.c. A pointer to
-- `oid_t` and a length are one list of 32-bit words; `oid_dup` and `oid_cpy` copy such a list.
pub mod Compare
pub mod Cover
pub mod BinarySearch
use smartsnmp.Base.{ℕ, List, [], ◌∷◌, ◌&&◌, leb, ◌==◌, if◌then◌else◌, length, take}
use smartsnmp.Base.Int.{ℤ, pos, negsuc, is_zero, signed32, sub32}

-- The `while` loop stops at the first difference, or where one of the two ends.
unfoldable pub oid_cmp : List ℕ → List ℕ → ℤ
oid_cmp [] target = signed32 (sub32 0 (length target))
oid_cmp (x ∷ src) [] = signed32 (sub32 (length (x ∷ src)) 0)
oid_cmp (x ∷ src) (y ∷ target) =
    let rest = oid_cmp src target in if sub32 x y == 0 then rest else signed32 (sub32 x y)

-- 1: the first covers the second; -1: the second covers the first; 0: neither.
unfoldable pub oid_cover : List ℕ → List ℕ → ℤ
oid_cover oid1 oid2 =
    let len1 = length oid1 in
    let len2 = length oid2 in
    if leb len1 len2 && is_zero (oid_cmp oid1 (take len1 oid2))
    then pos 1
    else (if leb len2 len1 && is_zero (oid_cmp (take len2 oid1) oid2) then negsuc 0 else pos 0)
