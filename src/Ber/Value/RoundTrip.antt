-- ===== src/Ber/Value/RoundTrip.antt =====
-- The decoder reads back what the encoder writes, for every tag, core/snmp_encoder.c and
-- core/snmp_decoder.c.
use smartsnmp.Base.{ℕ, ◌+◌, ◌*◌, ◌<◌, List, [], ◌∷◌, ◌≡◌, ◌∙◌, sym, some, refl, All, length}
use smartsnmp.Base.Bytes.{IsU32}
use smartsnmp.Ber.Integer.{ber_int_dec, ber_uint_dec}
use smartsnmp.Ber.Integer.RoundTrip.{ber_int_dec-ber_int_enc, ber_uint_dec-ber_uint_enc}
use smartsnmp.Ber.ObjectId.RoundTrip.{decode, ber_oid_dec-ber_oid_enc, length-ber_oid_dec}
use smartsnmp.Ber.Value.{
  Value, word, oid, octets, Kind, int_kind, uint_kind, oid_kind, octet_kind, no_kind, kind_of,
  enc_kind, ber_value_enc, decoded, of_word, dec_kind, ber_value_dec, dec_try_kind,
  ber_value_dec_try,
}

-- The values of a tag that come back: 32-bit words, object identifiers whose first two elements fit one
-- byte, and strings that are not empty.
abbrev pub Encodable : Kind → Value → Type 0
Encodable int_kind (word w) = IsU32 w
Encodable uint_kind (word w) = IsU32 w
Encodable oid_kind (oid (a ∷ b ∷ ids)) = (b < 40) × (a * 40 + b < 256) × All IsU32 ids
Encodable octet_kind (octets (x ∷ str)) = Unit {0}
Encodable kind v = ⊥

-- The number of elements of a value.
abbrev pub elements : Value → ℕ
elements (word w) = 1
elements (oid ids) = length ids
elements (octets str) = length str

-- Decoding on a whole buffer, by kind.
record Comes (kind : Kind) (l : List ℕ) (v : Value) : Type 0 where
  first : ℕ
  rest : List ℕ
  split : l ≡ first ∷ rest
  back : dec_kind kind first rest ≡ decoded v
  count : dec_try_kind kind first rest ≡ elements v

int_Comes : (l : List ℕ) (w : ℕ) → ber_int_dec l ≡ some w → Comes int_kind l (word w)
unfolding dec_kind of_word dec_try_kind
int_Comes [] w e = unfold ber_int_dec in cc
int_Comes (b ∷ bs) w e = record {
  first = b;
  rest = bs;
  split = refl;
  back = rw e refl;
  count = refl;
}

uint_Comes : (l : List ℕ) (w : ℕ) → ber_uint_dec l ≡ some w → Comes uint_kind l (word w)
unfolding dec_kind of_word dec_try_kind
uint_Comes [] w e = unfold ber_uint_dec in cc
uint_Comes (b ∷ bs) w e = record {
  first = b;
  rest = bs;
  split = refl;
  back = rw e refl;
  count = refl;
}

oid_Comes :
    (l : List ℕ) (a : ℕ) (ids : List ℕ) → decode l ≡ a ∷ ids → Comes oid_kind l (oid (a ∷ ids))
unfolding dec_kind dec_try_kind
oid_Comes [] a ids e = cc
oid_Comes (b ∷ bs) a ids e = record {
  first = b;
  rest = bs;
  split = refl;
  back = rw e refl;
  count = sym (length-ber_oid_dec b bs) ∙ rw e refl;
}

enc_Comes :
    (kind : Kind) (v : Value)
    → Encodable kind v
    → (l : List ℕ) × (enc_kind kind v ≡ some l) × Comes kind l v
unfolding enc_kind
enc_Comes int_kind (word w) h = (_, refl, int_Comes _ w (ber_int_dec-ber_int_enc w h))
enc_Comes uint_kind (word w) h = (_, refl, uint_Comes _ w (ber_uint_dec-ber_uint_enc w h))
enc_Comes oid_kind (oid (a ∷ b ∷ ids)) h =
    (_, refl, oid_Comes _ a (b ∷ ids) (ber_oid_dec-ber_oid_enc a b ids h.0 h.1 h.2))
enc_Comes octet_kind (octets (x ∷ str)) h = (
  x ∷ str,
  refl,
  record {
    first = x;
    rest = str;
    split = refl;
    back = unfold dec_kind in refl;
    count = unfold dec_try_kind in refl;
  },
)
enc_Comes int_kind (oid ids) h = absurd h
enc_Comes int_kind (octets str) h = absurd h
enc_Comes uint_kind (oid ids) h = absurd h
enc_Comes uint_kind (octets str) h = absurd h
enc_Comes oid_kind (word w) h = absurd h
enc_Comes oid_kind (oid []) h = absurd h
enc_Comes oid_kind (oid (a ∷ [])) h = absurd h
enc_Comes oid_kind (octets str) h = absurd h
enc_Comes octet_kind (word w) h = absurd h
enc_Comes octet_kind (oid ids) h = absurd h
enc_Comes octet_kind (octets []) h = absurd h
enc_Comes no_kind v h = absurd h

-- For every tag and every value of its kind that can be encoded (`Encodable`: a 32-bit word, a non-empty string,
-- an object identifier a.b.… of 32-bit words with b < 40 and a * 40 + b < 256), `ber_value_enc` writes bytes that
-- `ber_value_dec` reads back to the value, and `ber_value_dec_try` counts its elements.
pub ber_value_dec-ber_value_enc :
    (tag : ℕ) (v : Value)
    → Encodable (kind_of tag) v
    → (l : List ℕ) × (ber_value_enc tag v ≡ some l)
      × (ber_value_dec tag l ≡ decoded v)
      × (ber_value_dec_try tag l ≡ elements v)
unfolding ber_value_enc ber_value_dec ber_value_dec_try
ber_value_dec-ber_value_enc tag v h =
    let (l, e, c) = enc_Comes (kind_of tag) v h in
    (c.first ∷ c.rest, e ∙ rw c.split refl, c.back, c.count)
