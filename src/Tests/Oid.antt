-- ===== src/Tests/Oid.antt =====
-- Object identifier comparison and search of core/mib_tree.c at concrete inputs.
use smartsnmp.Base.{ℕ, ◌≡◌, ◌≤◌, ◌<◌, ◌↔◌, List, [], ◌∷◌, true, refl, arith, length, get_or}
use smartsnmp.Base.Int.{pos, negsuc, is_neg, is_pos}
use smartsnmp.Oid.{oid_cmp, oid_cover}
use smartsnmp.Oid.Compare.{LexLt, oid_cmp_order, oid_cmp_wraps}
use smartsnmp.Oid.Cover.{Covers, oid_cover_iff}
use smartsnmp.Oid.BinarySearch.{oid_binary_search}
use smartsnmp.Oid.BinarySearch.Correct.{IsAscending, search-neg}
use smartsnmp.Mib.Node.Arrays.{Ascends-IsAscending}

abbrev system : List ℕ
system = 1 ∷ 3 ∷ 6 ∷ 1 ∷ 2 ∷ 1 ∷ 1 ∷ []

abbrev mib_2 : List ℕ
mib_2 = 1 ∷ 3 ∷ 6 ∷ 1 ∷ 2 ∷ 1 ∷ []

abbrev ids : List ℕ
ids = 1 ∷ 4 ∷ 9 ∷ []

ids-IsAscending : IsAscending ids
ids-IsAscending = Ascends-IsAscending ids (omega arith)

cover_up : oid_cover system mib_2 ≡ negsuc 0
unfolding oid_cover oid_cmp
cover_up = refl

search_hit : oid_binary_search ids 4 ≡ pos 1
unfolding oid_binary_search
search_hit = refl

search_miss : oid_binary_search ids 5 ≡ negsuc 2
unfolding oid_binary_search
search_miss = refl

oid_cmp_order_example :
    ((is_neg (oid_cmp mib_2 system) ≡ true) ↔ LexLt mib_2 system)
    × ((is_pos (oid_cmp mib_2 system) ≡ true) ↔ LexLt system mib_2)
oid_cmp_order_example = oid_cmp_order mib_2 system (omega arith) (omega arith)

oid_cmp_wraps_example :
    LexLt (1 ∷ []) (0x9000_0000 ∷ []) × (is_pos (oid_cmp (1 ∷ []) (0x9000_0000 ∷ [])) ≡ true)
oid_cmp_wraps_example = oid_cmp_wraps 1 0x9000_0000 [] [] (omega arith) (omega arith)

oid_cover_iff_example :
    ((oid_cover mib_2 system ≡ pos 1) ↔ Covers mib_2 system)
    × ((oid_cover mib_2 system ≡ negsuc 0) ↔ (Covers system mib_2 × (¬ Covers mib_2 system)))
    × ((oid_cover mib_2 system ≡ pos 0) ↔ ((¬ Covers system mib_2) × (¬ Covers mib_2 system)))
oid_cover_iff_example = oid_cover_iff mib_2 system (omega arith) (omega arith)

search-neg_example :
    (2 ≤ length ids)
    × ((i : ℕ) → i < 2 → get_or ids i 0 < 5)
    × ((i : ℕ) → 2 ≤ i → i < length ids → 5 < get_or ids i 0)
search-neg_example = search-neg ids 5 ids-IsAscending 2 search_miss
