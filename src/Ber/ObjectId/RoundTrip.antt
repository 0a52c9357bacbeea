-- ===== src/Ber/ObjectId/RoundTrip.antt =====
-- `ber_oid_dec` reads back what `ber_oid_enc` writes, and fills the space that was counted for it.
use mathlib.Core.List.{reverse-cons, append_assoc}
use native.Mathlib.Nat.{pow-suc}
use smartsnmp.Base.{ℕ, zero, suc, ◌+◌, ◌*◌, ◌/◌, ◌%◌, ◌^◌, ◌≡◌, ◌∙◌, ◌<◌, refl, ap}
use smartsnmp.Base.{List, [], ◌∷◌, ◌++◌, reverse, inl, inr, arith}
use smartsnmp.Base.{length, All, ◌==◌, ==→eq, if◌then◌else◌, Bool-cases}
use smartsnmp.Base.Bytes.{IsU32, high_bit-byte, u32_mod}
use smartsnmp.Ber.ObjectId.{sub_id_groups, clear_first, enc_sub_id, enc_sub_ids, ber_oid_enc}
use smartsnmp.Ber.ObjectId.{dec_sub_ids, ber_oid_dec, count_sub_ids, ber_oid_dec_try}

-- The groups above the lowest one.
abbrev upper : ℕ → ℕ → List ℕ
upper room q = if q == 0 then [] else sub_id_groups room q

-- One byte of the loop with the top bit set, over the number `q / 128` read so far.
inner_byte :
    (q : ℕ) (rest : List ℕ)
    → q < 0x200_0000
    → dec_sub_ids (q / 128) ((q % 128 + 128) ∷ rest) ≡ dec_sub_ids q rest
unfolding dec_sub_ids
inner_byte q rest h = ground (arith, high_bit-byte (q % 128 + 128))

last_byte :
    (id : ℕ) (rest : List ℕ)
    → IsU32 id
    → dec_sub_ids (id / 128) (id % 128 ∷ rest) ≡ id ∷ dec_sub_ids 0 rest
unfolding dec_sub_ids
last_byte id rest h = ground (arith, high_bit-byte (id % 128))

zero_only : (q : ℕ) → q < 1 → q ≡ 0
zero_only q h = omega arith

fewer : (room q : ℕ) → q < 128 ^ suc room → q / 128 < 128 ^ room
fewer room q h = omega (arith, pow-suc 128 room)

ext_groups : (room q : ℕ) → sub_id_groups (suc room) q ≡ (q % 128 + 128) ∷ upper room (q / 128)
unfolding sub_id_groups
ext_groups room q = refl

low_group : (id : ℕ) → (id % 128 + 128) % 128 ≡ id % 128
low_group id = omega arith

-- The upper groups, highest first, leave their number in `id`.
dec-upper :
    (room q : ℕ) (rest : List ℕ)
    → q < 0x200_0000
    → q < 128 ^ room
    → dec_sub_ids 0 (reverse (upper room q) ++ rest) ≡ dec_sub_ids q rest
dec-upper zero q rest h fits = rw (zero_only q fits) refl
dec-upper (suc room) q rest h fits = elim (Bool-cases (q == 0)) [
  | inl e ↦ rw e (rw (==→eq q 0 e) refl)
  | inr e ↦
      rw (e, ext_groups room q, reverse-cons, append_assoc)
        (dec-upper room (q / 128) ((q % 128 + 128) ∷ rest) (omega arith) (fewer room q fits)
          ∙ inner_byte q rest h)
]

dec-enc_sub_id :
    (id : ℕ) (rest : List ℕ)
    → IsU32 id
    → dec_sub_ids 0 (enc_sub_id id ++ rest) ≡ id ∷ dec_sub_ids 0 rest
unfolding enc_sub_id clear_first sub_id_groups
dec-enc_sub_id id rest h =
    rw (reverse-cons, append_assoc, low_group id)
      (dec-upper 9 (id / 128) (id % 128 ∷ rest) (omega arith) (omega arith) ∙ last_byte id rest h)

dec-enc_sub_ids : (ids : List ℕ) → All IsU32 ids → dec_sub_ids 0 (enc_sub_ids ids) ≡ ids
unfolding enc_sub_ids
dec-enc_sub_ids [] h = unfold dec_sub_ids in refl
dec-enc_sub_ids (id ∷ ids) (h, hs) =
    dec-enc_sub_id id (enc_sub_ids ids) h ∙ ap (λ (t : List ℕ). id ∷ t) (dec-enc_sub_ids ids hs)

-- Decode the bytes of a buffer, as `ber_value_dec` does: no bytes, no elements.
abbrev pub decode : List ℕ → List ℕ
decode [] = []
decode (b ∷ bs) = ber_oid_dec b bs

-- An object identifier a.b.… of 32-bit words with b < 40 and a * 40 + b < 256 is decoded from its own encoding.
pub ber_oid_dec-ber_oid_enc :
    (a b : ℕ) (ids : List ℕ)
    → b < 40
    → a * 40 + b < 256
    → All IsU32 ids
    → decode (ber_oid_enc (a ∷ b ∷ ids)) ≡ a ∷ b ∷ ids
unfolding ber_oid_enc ber_oid_dec
ber_oid_dec-ber_oid_enc a b ids hb ha hs = ground (arith, dec-enc_sub_ids ids hs)

count-dec_sub_ids : (j id : ℕ) (bs : List ℕ) → count_sub_ids j bs ≡ j + length (dec_sub_ids id bs)
unfolding count_sub_ids dec_sub_ids
count-dec_sub_ids j id [] = omega arith
count-dec_sub_ids j id (b ∷ bs) =
    ground
      (arith, count-dec_sub_ids j (id * 128 % u32_mod + b % 128) bs, count-dec_sub_ids (j + 1) 0 bs)

-- On any bytes `ber_oid_dec` writes exactly the number of elements that `ber_oid_dec_try` counted,
-- for which the caller has allocated space.
pub length-ber_oid_dec : (b : ℕ) (bs : List ℕ) → length (ber_oid_dec b bs) ≡ ber_oid_dec_try b bs
unfolding ber_oid_dec ber_oid_dec_try
length-ber_oid_dec b bs = omega (arith, count-dec_sub_ids 2 0 bs)
