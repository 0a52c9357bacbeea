-- ===== src/Mib/Stored.antt =====
-- How `mib_instance_search` of core/mib_tree.c stores the numbers that a handler leaves on the Lua stack.
use smartsnmp.Base.{ℕ, ◌%◌, List, [], ◌∷◌, length, take}
use smartsnmp.Base.Int.{ℤ, pattern32, signed32}
use smartsnmp.Base.Bytes.{u32_mod}
use smartsnmp.Ber.Value.{Value, word, oid, octets}

-- An `int`, a list of `oid_t` and a value as the numbers of Lua are stored in them: cut to 32 bits, and the number of
-- elements, a `uint16_t`, to 16. For an unsigned value out of its range C leaves open what is stored.
unfoldable pub to_int : ℤ → ℤ
unfolding pattern32
to_int e = signed32 (pattern32 e)

abbrev pub to_oids : List ℕ → List ℕ
to_oids [] = []
to_oids (id ∷ ids) = id % u32_mod ∷ to_oids ids

abbrev pub to_bytes : List ℕ → List ℕ
to_bytes [] = []
to_bytes (b ∷ bs) = b % 256 ∷ to_bytes bs

unfoldable pub stored : Value → Value
stored (word w) = word (w % u32_mod)
stored (oid ids) = oid (to_oids (take (length ids % 65536) ids))
stored (octets bs) = octets (to_bytes (take (length bs % 65536) bs))
