-- ===== src/Agentx/Ends.antt =====
-- The decoder of core/agentx_msg_in.c ends, whatever the bytes.
pub mod Decode
pub mod Loops
use smartsnmp.Base.{
  ℕ, zero, suc, ◌+◌, ◌-◌, ◌*◌, ◌/◌, ◌%◌, ◌≡◌, ◌≤◌, ◌<◌, ◌∙◌, refl, sym, ap, subst, arith, inl, inr,
  List, [], ◌∷◌, ◌++◌, Option, none, some, length, length-append, take, drop, Bool-cases, leb,
  le→leb, leb→le, ◌==◌, ◌||◌, ◌&&◌, true, false, Bool, if◌then◌else◌,
}
use smartsnmp.Base.Bytes.{u32_mod}
use smartsnmp.Ber.Value.{Value}
use smartsnmp.Agentx.{XPduHdr}
use smartsnmp.Agentx.Pdu.{XKind, x_int, x_int64, x_octets, x_oid, x_none, x_kind}
use smartsnmp.Agentx.Decoder.{
  Parsed, ok, err, fault, out_of_fuel, Parser, XErr, pure, bind, ◌>>=◌, ◌>>◌, check, peek,
  read_byte, read32, read16, take_bytes, skip, read_words, oid_dec_try, oid_dec,
  agentx_value_dec_try, agentx_value_dec,
}
use smartsnmp.Agentx.MsgIn.{
  XVarIn, XSearchRange, XHead, Contents, int32, int16, network_order, has_context, context_parse,
  additional_parse, fields_parse, pdu_hdr_parse, var_bind_alloc, bound_parse, search_range_alloc,
  parse_loop, contents_parse, agentx_decode,
}

-- It has not run out of fuel, and less than `n` bytes are left.
abbrev pub EndsIn : {A : Type 0} → ℕ → Parsed A → Type 0
EndsIn n (ok a rest) = length rest < n
EndsIn n (err e) = Unit {0}
EndsIn n fault = Unit {0}
EndsIn n out_of_fuel = ⊥

-- A parser that ends, and does not go back.
abbrev pub Ends : {A : Type 0} → Parser A → Type 0
Ends p = (bs : List ℕ) → EndsIn (suc (length bs)) (p bs)

-- A parser that ends, and takes at least one byte.
abbrev pub Takes : {A : Type 0} → Parser A → Type 0
Takes p = (bs : List ℕ) (n : ℕ) → length bs ≤ n → EndsIn n (p bs)

pub EndsIn-more : {A : Type 0} (n k : ℕ) (r : Parsed A) → EndsIn n r → n ≤ k → EndsIn k r
EndsIn-more n k (ok a rest) h le = omega (arith, h, le)
EndsIn-more n k (err e) h le = tt
EndsIn-more n k fault h le = tt
EndsIn-more n k out_of_fuel h le = h

pub EndsIn-bind :
    {A B : Type 0} (n : ℕ) (r : Parsed A) (f : A → Parser B)
    → EndsIn n r
    → ((a : A) → Ends (f a))
    → EndsIn n (bind r f)
EndsIn-bind n (ok a rest) f h g =
    EndsIn-more (suc (length rest)) n (f a rest) (g a rest) (omega (arith, h))
EndsIn-bind n (err e) f h g = tt
EndsIn-bind n fault f h g = tt
EndsIn-bind n out_of_fuel f h g = h

pub Ends-bind :
    {A B : Type 0} (p : Parser A) (f : A → Parser B)
    → Ends p
    → ((a : A) → Ends (f a))
    → Ends (p >>= f)
Ends-bind p f h g bs = EndsIn-bind (suc (length bs)) (p bs) f (h bs) g

pub Takes-bind :
    {A B : Type 0} (p : Parser A) (f : A → Parser B)
    → Takes p
    → ((a : A) → Ends (f a))
    → Takes (p >>= f)
Takes-bind p f h g bs n le = EndsIn-bind n (p bs) f (h bs n le) g

pub Takes-Ends : {A : Type 0} (p : Parser A) → Takes p → Ends p
Takes-Ends p h bs = h bs (suc (length bs)) (omega arith)

pub Ends-pure : {A : Type 0} (a : A) → Ends (pure a)
Ends-pure a bs = omega arith

pub Ends-check : (b : Bool) (e : XErr) → Ends (check b e)
Ends-check true e bs = omega arith
Ends-check false e bs = tt

pub Ends-if : {A : Type 0} (b : Bool) (p q : Parser A) → Ends p → Ends q → Ends (if b then p else q)
Ends-if true p q h k = h
Ends-if false p q h k = k

peeked :
    {A : Type 0} (r : Parsed A) (bs : List ℕ)
    → EndsIn (suc (length bs)) r
    → EndsIn
        (suc (length bs))
        (elim r [ ok a rest ↦ ok a bs | err e ↦ err e | fault ↦ fault | out_of_fuel ↦ out_of_fuel ])
peeked (ok a rest) bs h = omega arith
peeked (err e) bs h = tt
peeked fault bs h = tt
peeked out_of_fuel bs h = h

pub Ends-peek : {A : Type 0} (p : Parser A) → Ends p → Ends (peek p)
unfolding peek
Ends-peek p h bs = peeked (p bs) bs (h bs)

pub Ends-read_byte : Ends read_byte
unfolding read_byte
Ends-read_byte [] = tt
Ends-read_byte (b ∷ bs) = omega arith

pub Ends-read32 : Ends read32
unfolding read32
Ends-read32 [] = tt
Ends-read32 (a ∷ []) = tt
Ends-read32 (a ∷ b ∷ []) = tt
Ends-read32 (a ∷ b ∷ c ∷ []) = tt
Ends-read32 (a ∷ b ∷ c ∷ d ∷ bs) = omega arith

pub Takes-read16 : Takes read16
unfolding read16
Takes-read16 [] n le = tt
Takes-read16 (a ∷ []) n le = tt
Takes-read16 (a ∷ b ∷ bs) n le = omega (arith, le)

pub length-drop_le : (n : ℕ) (bs : List ℕ) → length (drop n bs) ≤ length bs
length-drop_le zero bs = omega arith
length-drop_le (suc n) [] = omega arith
length-drop_le (suc n) (b ∷ bs) = omega (arith, length-drop_le n bs)

pub Ends-take_bytes : (n : ℕ) → Ends (take_bytes n)
unfolding take_bytes
Ends-take_bytes n bs = elim (Bool-cases (leb n (length bs))) [
  | inl e ↦ rw (take_bytes, e) (omega (arith, length-drop_le n bs))
  | inr e ↦ rw (take_bytes, e) tt
]

pub Ends-skip : (n : ℕ) → Ends (skip n)
unfolding skip
Ends-skip n bs = elim (Bool-cases (leb n (length bs))) [
  | inl e ↦ rw (skip, e) (omega (arith, length-drop_le n bs))
  | inr e ↦ rw (skip, e) tt
]
