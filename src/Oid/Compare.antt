-- ===== src/Oid/Compare.antt =====
-- `oid_cmp` against equality and the lexicographic order.
use smartsnmp.Base.{inl, inr}
use smartsnmp.Base.{ℕ, ◌+◌, ◌≡◌, ◌<◌, ◌↔◌, ◌⊎◌, refl, true, arith}
use smartsnmp.Base.{List, [], ◌∷◌, length, All}
use smartsnmp.Base.Bytes.{IsU32}
use smartsnmp.Base.Int.{is_zero, is_neg, is_pos}
use smartsnmp.Oid.{oid_cmp}

-- An object identifier of the program: 32-bit elements, and a 31-bit length.
pub record IsOid (oid : List ℕ) : Type 0 where
  pub words : All IsU32 oid
  pub short : length oid < 0x8000_0000

-- Elements that are 31-bit words, on which `*src - *target` does not wrap.
pub record IsSmall (oid : List ℕ) : Type 0 where
  pub words : All (λ x. x < 0x8000_0000) oid
  pub short : length oid < 0x8000_0000

-- The lexicographic order.
abbrev pub LexLt : List ℕ → List ℕ → Type 0
LexLt [] [] = ⊥
LexLt [] (y ∷ t) = Unit {0}
LexLt (x ∷ s) [] = ⊥
LexLt (x ∷ s) (y ∷ t) = (x < y) ⊎ ((x ≡ y) × LexLt s t)

IsOid-tail : {x : ℕ} {s : List ℕ} → IsOid (x ∷ s) → IsOid s
IsOid-tail h = record { words = h.words.1; short = omega arith }

IsSmall-tail : {x : ℕ} {s : List ℕ} → IsSmall (x ∷ s) → IsSmall s
IsSmall-tail h = record { words = h.words.1; short = omega arith }

All-words : (xs : List ℕ) → All (λ x. x < 0x8000_0000) xs → All IsU32 xs
All-words [] h = tt
All-words (x ∷ xs) h = (omega (arith, h.0), All-words xs h.1)

pub IsSmall-IsOid : (oid : List ℕ) → IsSmall oid → IsOid oid
IsSmall-IsOid oid h = record { words = All-words oid h.words; short = h.short }

pub LexLt-asym : (a b : List ℕ) → LexLt a b → ¬ LexLt b a
LexLt-asym [] [] h k = h
LexLt-asym [] (y ∷ b) h k = k
LexLt-asym (x ∷ a) [] h k = h
LexLt-asym (x ∷ a) (y ∷ b) (inl p) (inl q) = omega (arith, p, q)
LexLt-asym (x ∷ a) (y ∷ b) (inl p) (inr q) = omega (arith, p, q.0)
LexLt-asym (x ∷ a) (y ∷ b) (inr p) (inl q) = omega (arith, p.0, q)
LexLt-asym (x ∷ a) (y ∷ b) (inr p) (inr q) = LexLt-asym a b p.1 q.1

pub zero→eq : (a b : List ℕ) → IsOid a → IsOid b → is_zero (oid_cmp a b) ≡ true → a ≡ b
unfolding oid_cmp
zero→eq [] [] ha hb e = refl
zero→eq [] (y ∷ t) ha hb e = ground arith
zero→eq (x ∷ s) [] ha hb e = ground arith
zero→eq (x ∷ s) (y ∷ t) ha hb e = ground (arith, zero→eq s t (IsOid-tail ha) (IsOid-tail hb))

pub eq→zero : (a : List ℕ) → IsOid a → is_zero (oid_cmp a a) ≡ true
unfolding oid_cmp
eq→zero [] ha = refl
eq→zero (x ∷ s) ha = ground (arith, eq→zero s (IsOid-tail ha))

neg↔lt : (a b : List ℕ) → IsSmall a → IsSmall b → (is_neg (oid_cmp a b) ≡ true) ↔ LexLt a b
unfolding oid_cmp
neg↔lt [] [] ha hb = ground arith
neg↔lt [] (y ∷ t) ha hb = ground arith
neg↔lt (x ∷ s) [] ha hb = ground arith
neg↔lt (x ∷ s) (y ∷ t) ha hb = ground (arith, neg↔lt s t (IsSmall-tail ha) (IsSmall-tail hb))

pos↔lt : (a b : List ℕ) → IsSmall a → IsSmall b → (is_pos (oid_cmp a b) ≡ true) ↔ LexLt b a
unfolding oid_cmp
pos↔lt [] [] ha hb = ground arith
pos↔lt [] (y ∷ t) ha hb = ground arith
pos↔lt (x ∷ s) [] ha hb = ground arith
pos↔lt (x ∷ s) (y ∷ t) ha hb = ground (arith, pos↔lt s t (IsSmall-tail ha) (IsSmall-tail hb))

-- `oid_cmp` returns 0 exactly on equal object identifiers.
pub oid_cmp_zero_iff : (a b : List ℕ) → IsOid a → IsOid b → (is_zero (oid_cmp a b) ≡ true) ↔ (a ≡ b)
oid_cmp_zero_iff a b ha hb = (zero→eq a b ha hb, λ e. rw (← e) (eq→zero a ha))

-- On elements below 2 ^ 31 the sign of `oid_cmp` is the lexicographic order, both ways.
pub oid_cmp_order :
    (a b : List ℕ)
    → IsSmall a
    → IsSmall b
    → ((is_neg (oid_cmp a b) ≡ true) ↔ LexLt a b) × ((is_pos (oid_cmp a b) ≡ true) ↔ LexLt b a)
oid_cmp_order a b ha hb = (neg↔lt a b ha hb, pos↔lt a b ha hb)

-- Elements more than 2 ^ 31 apart are ordered the wrong way round: the difference wraps.
pub oid_cmp_wraps :
    (x y : ℕ) (s t : List ℕ)
    → IsU32 y
    → x + 0x8000_0000 < y
    → LexLt (x ∷ s) (y ∷ t) × (is_pos (oid_cmp (x ∷ s) (y ∷ t)) ≡ true)
unfolding oid_cmp
oid_cmp_wraps x y s t h far = ground arith
