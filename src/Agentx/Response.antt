-- ===== src/Agentx/Response.antt =====
-- A response of core/agentx_msg_out.c, read back by the decoder of core/agentx_msg_in.c.
use mathlib.Core.List.{append_assoc, append-nil}
use smartsnmp.Agentx.{word32, uint_sizeof, zeros, words, x_objid, x_octstr}
use smartsnmp.Base.{
  ℕ, ◌+◌, ◌-◌, ◌*◌, ◌/◌, ◌%◌, ◌≡◌, ◌≤◌, ◌∙◌, refl, sym, ap, subst, arith, List, [], ◌∷◌, ◌++◌,
  Option, none, some, length, length-append, take, drop, le→leb, ==_apart, ◌==◌, false,
}
use smartsnmp.Agentx.Decoder.{
  Parsed, ok, read_byte, read32, take_bytes, skip, peek, pure, bind, ◌>>=◌, ◌>>◌, oid_dec_try,
  agentx_value_dec_try, agentx_value_dec,
}
use smartsnmp.Agentx.Pdu.{XKind, x_int, x_int64, x_octets, x_oid, x_none, data_bytes, at_least}
use smartsnmp.Agentx.RoundTrip.{joined, and_false, IsInternet, oid_dec-x_objid}
use smartsnmp.Agentx.Sizes.{length-words, length-zeros}
use smartsnmp.Base.Bytes.{IsU32, byte}
use smartsnmp.Base.ListLaws.{take-append, drop-append, length-le-append}
use smartsnmp.Ber.Value.{Value, word, oid, octets}
use smartsnmp.Snmp.MsgProc.Sizes.{some-inj}

-- The bytes of a value as `agentx_value_enc` leaves them, and what the decoder makes of them.
abbrev pub Stored : XKind → List ℕ → Option Value → Type 0
Stored x_int bytes v = (w : ℕ) × IsU32 w × (bytes ≡ word32 w) × (v ≡ some (word w))
Stored x_int64 bytes v =
    (low high : ℕ) × IsU32 low
    × IsU32 high
    × (bytes ≡ word32 low ++ word32 high)
    × (v ≡ some (word (low + high * 4294967296)))
Stored x_octets bytes v = (length bytes ≤ 1024) × (v ≡ some (octets bytes))
Stored x_oid bytes v = (ids : List ℕ) × IsInternet ids × (bytes ≡ words ids) × (v ≡ some (oid ids))
Stored x_none bytes v = v ≡ none

-- Both passes of the decoder over the data of a value.
pub record Reads (k : XKind) (data_part : List ℕ) (v : Option Value) : Type 0 where
  pub try :
      (rest : List ℕ)
      → (n : ℕ) × (rest' : List ℕ) × (n ≤ 1024)
        × (agentx_value_dec_try k (data_part ++ rest) ≡ ok n rest')
  pub dec : (rest : List ℕ) → agentx_value_dec k (data_part ++ rest) ≡ ok v rest

pub oid_dec_try-x_objid :
    (ids rest : List ℕ)
    → IsInternet ids
    → oid_dec_try (x_objid ids ++ rest) ≡ ok (length ids * 4) (0 ∷ 0 ∷ (words (drop 5 ids) ++ rest))
unfolding oid_dec_try x_objid read_byte
oid_dec_try-x_objid ids rest h =
    let p = h.prefix in
    let subs = h.subs in
    let ids' = 1 ∷ 3 ∷ 6 ∷ 1 ∷ p ∷ subs in
    let n : (length ids' - 5) % 256 ≡ length subs = omega (arith, h.few) in
    let q : p % 256 ≡ p = omega (arith, h.byte) in
    let z : (p == 0) ≡ false = ==_apart p 0 (omega (arith, h.positive)) in
    let l : (length subs + 5) * 4 ≡ length ids' * 4 = omega arith in
    subst
      (λ z.
        oid_dec_try (x_objid z ++ rest) ≡ ok (length z * 4) (0 ∷ 0 ∷ (words (drop 5 z) ++ rest)))
      (sym h.split) (rw (n, q, z, and_false (length subs == 0), l) refl)

take_all : (xs : List ℕ) (n : ℕ) → n ≡ length xs → take n xs ≡ xs
take_all xs n e = rw e (ap (take (length xs)) (sym (append-nil xs)) ∙ take-append xs [])

data_bytes-x_oid :
    (ids : List ℕ) → IsInternet ids → data_bytes x_oid (words ids) ≡ some (x_objid ids)
unfolding data_bytes x_objid
data_bytes-x_oid ids h =
    let p = h.prefix in
    let subs = h.subs in
    let ids' = 1 ∷ 3 ∷ 6 ∷ 1 ∷ p ∷ subs in
    let value = words ids' in
    let len : length value ≡ 20 + length subs * 4 = omega (arith, length-words ids') in
    let n : (length value - 20) / 4 % 256 ≡ (length ids' - 5) % 256 = omega (arith, len) in
    let b : byte p 0 ≡ p % 256 = omega arith in
    let whole : take (length value / 4 * 4) value ≡ value = take_all value _ (omega (arith, len)) in
    let none_left : length value - 20 - (length value / 4 * 4 - 20) ≡ 0 = omega (arith, len) in
    subst (λ z. data_bytes x_oid (words z) ≡ some (x_objid z)) (sym h.split)
      (rw (n, whole, none_left, b, append-nil (words subs)) refl)

Reads-x_int : (w : ℕ) → IsU32 w → Reads x_int (word32 w) (some (word w))
unfolding agentx_value_dec_try agentx_value_dec
Reads-x_int w h = record {
  try = λ rest. (8, word32 w ++ rest, omega arith, refl);
  dec = λ rest. rw (joined w h) refl;
}

Reads-x_int64 :
    (low high : ℕ)
    → IsU32 low
    → IsU32 high
    → Reads x_int64 (word32 low ++ word32 high) (some (word (low + high * 4294967296)))
unfolding agentx_value_dec_try agentx_value_dec
Reads-x_int64 low high hl hh = record {
  try = λ rest. (8, (word32 low ++ word32 high) ++ rest, omega arith, refl);
  dec = λ rest. rw (joined low hl, joined high hh) refl;
}

take_bytes-append : (xs bs : List ℕ) → take_bytes (length xs) (xs ++ bs) ≡ ok xs bs
unfolding take_bytes
take_bytes-append xs bs =
    rw
      (
        le→leb (length xs) (length (xs ++ bs)) (length-le-append xs bs),
        take-append xs bs,
        drop-append xs bs,
      )
      refl

pub peek-ok :
    {A : Type 0} (p : List ℕ → Parsed A) (bs rest : List ℕ) (a : A)
    → p bs ≡ ok a rest
    → peek p bs ≡ ok a bs
unfolding peek
peek-ok p bs rest a e = rw (peek, e) refl

skip-append : (xs bs : List ℕ) → skip (length xs) (xs ++ bs) ≡ ok tt bs
unfolding skip
skip-append xs bs =
    rw (le→leb (length xs) (length (xs ++ bs)) (length-le-append xs bs), drop-append xs bs) refl

skip-padded :
    (str rest : List ℕ)
    → skip
        (uint_sizeof (length str))
        (str ++ (zeros (uint_sizeof (length str) - length str) ++ rest))
      ≡ ok tt rest
skip-padded str rest =
    let pad = zeros (uint_sizeof (length str) - length str) in
    let size : length (str ++ pad) ≡ uint_sizeof (length str) =
      omega (arith, length-append str pad, length-zeros (uint_sizeof (length str) - length str)) in
    subst (λ n. skip n (str ++ (pad ++ rest)) ≡ ok tt rest) size
      (ap (skip (length (str ++ pad))) (sym (append_assoc str pad rest))
        ∙ skip-append (str ++ pad) rest)

-- The branch of a string in `agentx_value_dec`, behind its length.
string_dec :
    (str rest : List ℕ)
    → (peek (take_bytes (length str)) >>= λ xs.
          skip (uint_sizeof (length str)) >> pure (some (octets xs)))
        (str ++ (zeros (uint_sizeof (length str) - length str) ++ rest))
      ≡ ok (some (octets str)) rest
string_dec str rest =
    let pad = zeros (uint_sizeof (length str) - length str) in
    ap (λ r. bind r (λ xs. skip (uint_sizeof (length str)) >> pure (some (octets xs))))
      (peek-ok (take_bytes (length str)) (str ++ (pad ++ rest)) (pad ++ rest) str
        (take_bytes-append str (pad ++ rest)))
    ∙ ap (λ r. bind r (λ _. pure (some (octets str)))) (skip-padded str rest)

Reads-x_octets :
    (str : List ℕ)
    → length str ≤ 1024
    → Reads x_octets (x_octstr (length str) str) (some (octets str))
unfolding agentx_value_dec_try agentx_value_dec x_octstr read32
Reads-x_octets str h =
    let pad = zeros (uint_sizeof (length str) - length str) in
    let j = joined (length str) (omega (arith, h)) in
    record {
      try = λ rest. (length str, (str ++ pad) ++ rest, h, rw j refl);
      dec = λ rest. rw (j, append_assoc str pad rest) (string_dec str rest);
    }

IsInternet-short : (ids : List ℕ) → IsInternet ids → length ids * 4 ≤ 1024
IsInternet-short ids h =
    let l : length ids ≡ 5 + length h.subs = ap (λ (z : List ℕ). length z) h.split ∙ omega arith in
    omega (arith, l, h.few)

Reads-x_oid : (ids : List ℕ) → IsInternet ids → Reads x_oid (x_objid ids) (some (oid ids))
unfolding agentx_value_dec_try agentx_value_dec
Reads-x_oid ids h = record {
  try = λ rest. (length ids * 4, _, IsInternet-short ids h, oid_dec_try-x_objid ids rest h);
  dec = λ rest. rw (oid_dec-x_objid ids rest h) refl;
}

Reads-x_none : Reads x_none [] none
unfolding agentx_value_dec_try agentx_value_dec
Reads-x_none = record { try = λ rest. (0, rest, omega arith, refl); dec = λ rest. refl }

pub data_Reads :
    (k : XKind) (value d : List ℕ) (v : Option Value)
    → Stored k value v
    → data_bytes k value ≡ some d
    → Reads k d v
unfolding data_bytes at_least
data_Reads x_int value d v (w, h, e, f) g =
    let q : word32 w ≡ d = some-inj _ d (rw e at g) in
    subst (λ z. Reads x_int z v) q (subst (Reads x_int (word32 w)) (sym f) (Reads-x_int w h))
data_Reads x_int64 value d v (low, high, hl, hh, e, f) g =
    let q : word32 low ++ word32 high ≡ d = some-inj _ d (rw e at g) in
    subst (λ z. Reads x_int64 z v) q
      (subst (Reads x_int64 (word32 low ++ word32 high)) (sym f) (Reads-x_int64 low high hl hh))
data_Reads x_octets value d v (h, f) g =
    subst (λ z. Reads x_octets z v) (some-inj _ d g)
      (subst (Reads x_octets (x_octstr (length value) value)) (sym f) (Reads-x_octets value h))
data_Reads x_oid value d v (ids, h, e, f) g =
    let q : x_objid ids ≡ d =
      some-inj _ d (sym (data_bytes-x_oid ids h) ∙ ap (data_bytes x_oid) (sym e) ∙ g) in
    subst (λ z. Reads x_oid z v) q (subst (Reads x_oid (x_objid ids)) (sym f) (Reads-x_oid ids h))
data_Reads x_none value d v f g =
    subst (λ z. Reads x_none z v) (some-inj [] d g) (subst (Reads x_none []) (sym f) Reads-x_none)
