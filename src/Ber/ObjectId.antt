-- ===== src/Ber/ObjectId.antt =====
-- `ber_oid_enc`, `ber_oid_enc_try` of core/snmp_encoder.c and `ber_oid_dec`, `ber_oid_dec_try` of
-- core/snmp_decoder.c: object identifiers, seven bits of a sub-identifier to a byte.
-- On any word `x & 0x7f` is `x % 128`, and `y | 0x80` of a `y` below 128 is `y + 128`.
pub mod Encode
pub mod RoundTrip
use smartsnmp.Base.{
  ℕ, zero, suc, ◌+◌, ◌*◌, ◌/◌, ◌%◌, List, [], ◌∷◌, ◌++◌, reverse, Option, none, some,
}
use smartsnmp.Base.{leb, ◌==◌, if◌then◌else◌, length}
use smartsnmp.Base.Bytes.{high_bit, u32_mod}

-- `do { tmp[k++] = (id & 0x7f) | 0x80; id /= 128; } while (id);` on the room left in `tmp`: the
-- groups from the lowest on. `Encode.length-sub_id_groups` shows that a 32-bit id needs 5 of the 10.
unfoldable pub sub_id_groups : ℕ → ℕ → List ℕ
sub_id_groups zero id = []
sub_id_groups (suc room) id =
    let more = sub_id_groups room (id / 128) in
    (id % 128 + 128) ∷ (if id / 128 == 0 then [] else more)

-- `tmp[0] &= 0x7f;`
unfoldable pub clear_first : List ℕ → List ℕ
clear_first [] = []
clear_first (t ∷ ts) = t % 128 ∷ ts

-- The bytes of one sub-identifier; `do { buf[j++] = tmp[--k]; } while (k);` reverses `tmp`.
unfoldable pub enc_sub_id : ℕ → List ℕ
unfolding clear_first
enc_sub_id id = reverse (clear_first (sub_id_groups 10 id))

unfoldable pub enc_sub_ids : List ℕ → List ℕ
enc_sub_ids [] = []
enc_sub_ids (id ∷ ids) = enc_sub_id id ++ enc_sub_ids ids

unfoldable pub ber_oid_enc : List ℕ → List ℕ
unfolding enc_sub_ids
ber_oid_enc [] = []
ber_oid_enc (a ∷ []) = a % 256 ∷ []
ber_oid_enc (a ∷ b ∷ ids) = (a * 40 + b) % 256 ∷ enc_sub_ids ids

-- The loop of `ber_oid_enc_try`, where `j` is a `uint8_t`.
unfoldable pub try_sub_ids : ℕ → List ℕ → ℕ
try_sub_ids j [] = j
try_sub_ids j (id ∷ ids) = try_sub_ids ((j + length (sub_id_groups 10 id)) % 256) ids

-- The index `i` is a `uint8_t` too: with more than 255 elements `i < len` never fails (`none`).
unfoldable pub ber_oid_enc_try : List ℕ → Option ℕ
unfolding try_sub_ids
ber_oid_enc_try [] = some 0
ber_oid_enc_try (a ∷ []) = some 1
ber_oid_enc_try (a ∷ b ∷ ids) =
    if leb (length (a ∷ b ∷ ids)) 255 then some (try_sub_ids 1 ids) else none

-- The loop of `ber_oid_dec`: `id = (id << 7) | (buf[i] & 0x7f);`, and a clear top bit ends the id.
unfoldable pub dec_sub_ids : ℕ → List ℕ → List ℕ
dec_sub_ids id [] = []
dec_sub_ids id (b ∷ bs) =
    let id' = id * 128 % u32_mod + b % 128 in
    let done = dec_sub_ids 0 bs in
    let more = dec_sub_ids id' bs in if high_bit b then more else id' ∷ done

-- On a buffer of `len > 0` bytes, which the callers check: its first byte, and the others.
unfoldable pub ber_oid_dec : ℕ → List ℕ → List ℕ
unfolding dec_sub_ids
ber_oid_dec b bs = b / 40 ∷ b % 40 ∷ dec_sub_ids 0 bs

unfoldable pub count_sub_ids : ℕ → List ℕ → ℕ
count_sub_ids j [] = j
count_sub_ids j (b ∷ bs) = count_sub_ids (if high_bit b then j else j + 1) bs

unfoldable pub ber_oid_dec_try : ℕ → List ℕ → ℕ
unfolding count_sub_ids
ber_oid_dec_try b bs = count_sub_ids 2 bs
