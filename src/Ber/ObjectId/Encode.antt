-- ===== src/Ber/ObjectId/Encode.antt =====
-- The size of an encoded object identifier, and what `ber_oid_enc_try` announces.
use mathlib.Core.List.{reverse-cons}
use smartsnmp.Base.{ℕ, ◌+◌, ◌*◌, ◌%◌, ◌≡◌, ◌≤◌, ◌<◌, List, [], ◌∷◌, reverse, some, refl, arith}
use smartsnmp.Base.{length, length-append, All}
use smartsnmp.Base.Bytes.{IsU32}
use smartsnmp.Ber.ObjectId.{
  sub_id_groups, clear_first, enc_sub_id, enc_sub_ids, ber_oid_enc, try_sub_ids, ber_oid_enc_try,
}

length-reverse {ℓ} : {A : Type ℓ} (xs : List A) → length (reverse xs) ≡ length xs
length-reverse [] = omega arith
length-reverse (x ∷ xs) =
    rw reverse-cons (omega (arith, length-append (reverse xs) (x ∷ []), length-reverse xs))

-- A 32-bit sub-identifier fills 1 to 5 of the ten places of `tmp`.
pub length-sub_id_groups :
    (id : ℕ) → IsU32 id → (1 ≤ length (sub_id_groups 10 id)) × (length (sub_id_groups 10 id) ≤ 5)
unfolding sub_id_groups
length-sub_id_groups id h = ground arith

length-enc_sub_id : (id : ℕ) → length (enc_sub_id id) ≡ length (sub_id_groups 10 id)
unfolding enc_sub_id clear_first sub_id_groups
length-enc_sub_id id = rw length-reverse refl

-- Each sub-identifier takes 1 to 5 bytes.
length-enc_sub_ids :
    (ids : List ℕ)
    → All IsU32 ids
    → (length ids ≤ length (enc_sub_ids ids)) × (length (enc_sub_ids ids) ≤ 5 * length ids)
unfolding enc_sub_ids
length-enc_sub_ids [] h = omega arith
length-enc_sub_ids (id ∷ ids) (h, hs) = omega (
  arith,
  length-append (enc_sub_id id) (enc_sub_ids ids),
  length-enc_sub_id id,
  length-sub_id_groups id h,
  length-enc_sub_ids ids hs,
)

-- An object identifier of n > 1 elements is encoded in n - 1 to 5 * n - 9 bytes.
pub length-ber_oid_enc :
    (a b : ℕ) (ids : List ℕ)
    → All IsU32 ids
    → (1 + length ids ≤ length (ber_oid_enc (a ∷ b ∷ ids)))
      × (length (ber_oid_enc (a ∷ b ∷ ids)) ≤ 1 + 5 * length ids)
unfolding ber_oid_enc
length-ber_oid_enc a b ids h = omega (arith, length-enc_sub_ids ids h)

try_sub_ids_lem :
    (j : ℕ) (ids : List ℕ) → j < 256 → try_sub_ids j ids ≡ (j + length (enc_sub_ids ids)) % 256
unfolding try_sub_ids enc_sub_ids
try_sub_ids_lem j [] h = omega arith
try_sub_ids_lem j (id ∷ ids) h = omega (
  arith,
  try_sub_ids_lem ((j + length (sub_id_groups 10 id)) % 256) ids (omega arith),
  length-append (enc_sub_id id) (enc_sub_ids ids),
  length-enc_sub_id id,
)

-- For 2 to 255 elements `ber_oid_enc_try` announces the length of the encoding modulo 256: it is
-- exact while the encoding has fewer than 256 bytes, and too small from there on.
pub ber_oid_enc_try_wraps :
    (a b : ℕ) (ids : List ℕ)
    → length ids ≤ 253
    → ber_oid_enc_try (a ∷ b ∷ ids) ≡ some (length (ber_oid_enc (a ∷ b ∷ ids)) % 256)
unfolding ber_oid_enc_try ber_oid_enc
ber_oid_enc_try_wraps a b ids h = ground (arith, try_sub_ids_lem 1 ids)

-- So a sub-identifier list whose encoding passes 255 bytes is announced with a shorter length.
pub ber_oid_enc_try_short :
    (a b : ℕ) (ids : List ℕ) (n : ℕ)
    → length ids ≤ 253
    → 256 ≤ length (ber_oid_enc (a ∷ b ∷ ids))
    → ber_oid_enc_try (a ∷ b ∷ ids) ≡ some n
    → n < length (ber_oid_enc (a ∷ b ∷ ids))
ber_oid_enc_try_short a b ids n h long e = ground (arith, ber_oid_enc_try_wraps a b ids h)
