-- ===== src/Agentx/Decoder.antt =====
-- The decoder of values, core/agentx_decoder.c, and the pointer that moves over the received bytes of
-- core/agentx_msg_in.c. The byte order of the flags is not looked at by the decoder of values, as in the source.
use smartsnmp.Base.{ℕ, zero, suc, ◌+◌, ◌*◌, List, [], ◌∷◌, Option, none, some, Bool, true, false}
use smartsnmp.Base.{leb, ◌==◌, ◌&&◌, if◌then◌else◌, length, take, drop}
use smartsnmp.Ber.Value.{Value, word, oid, octets}
use smartsnmp.Agentx.{uint_sizeof}
use smartsnmp.Agentx.Pdu.{XKind, x_int, x_int64, x_octets, x_oid, x_none}

-- `enum agentx_err_code`
pub data XErr : Type 0 where
  err_ctx_len : XErr
  err_vb_value_len : XErr
  err_vb_oid_len : XErr
  err_sr_oid_len : XErr

-- `fault` is a read behind the buffer, or a pointer that leaves it.
pub data Parsed (A : Type 0) : Type 0 where
  ok : A → List ℕ → Parsed A
  err : XErr → Parsed A
  fault : Parsed A
  out_of_fuel : Parsed A

abbrev pub Parser : Type 0 → Type 0
Parser A = List ℕ → Parsed A

abbrev pub pure : {A : Type 0} → A → Parser A
pure a bs = ok a bs

module _ {A B : Type 0} where
  abbrev pub bind : Parsed A → (A → Parser B) → Parsed B
  bind (ok a rest) f = f a rest
  bind (err e) f = err e
  bind fault f = fault
  bind out_of_fuel f = out_of_fuel

  infixl 5 ◌>>=◌
  abbrev pub ◌>>=◌ : Parser A → (A → Parser B) → Parser B
  p >>= f = λ bs. bind (p bs) f

infixl 5 ◌>>◌
abbrev pub ◌>>◌ : {B : Type 0} → Parser (Unit {0}) → Parser B → Parser B
p >> q = p >>= λ _. q

abbrev pub check : Bool → XErr → Parser (Unit {0})
check true e = pure tt
check false e = λ bs. err e

-- The pointer of the caller does not move.
unfoldable pub peek : {A : Type 0} → Parser A → Parser A
peek p bs = elim (p bs) [
  | ok a rest ↦ ok a bs
  | err e ↦ err e
  | fault ↦ fault
  | out_of_fuel ↦ out_of_fuel
]

unfoldable pub read_byte : Parser ℕ
read_byte [] = fault
read_byte (b ∷ bs) = ok b bs

-- `*(uint32_t *)buf` and `*(uint16_t *)buf`, with the pointer moved behind it.
unfoldable pub read32 : Parser ℕ
read32 (a ∷ b ∷ c ∷ d ∷ bs) = ok (a + b * 256 + c * 65536 + d * 16777216) bs
read32 bs = fault

unfoldable pub read16 : Parser ℕ
read16 (a ∷ b ∷ bs) = ok (a + b * 256) bs
read16 bs = fault

-- The `n` bytes at the pointer, which then moves behind them.
unfoldable pub take_bytes : ℕ → Parser (List ℕ)
take_bytes n bs = if leb n (length bs) then ok (take n bs) (drop n bs) else fault

-- `buf += n;`
unfoldable pub skip : ℕ → Parser (Unit {0})
skip n bs = if leb n (length bs) then ok tt (drop n bs) else fault

unfoldable pub read_words : ℕ → Parser (List ℕ)
unfolding read32
read_words zero = pure []
read_words (suc n) = do x ← read32; xs ← read_words n; pure (x ∷ xs)

-- The branch of an object identifier in `agentx_value_dec_try`: its bytes as `oid_t`.
unfoldable pub oid_dec_try : Parser ℕ
unfolding read_byte
oid_dec_try = do
  n ← read_byte
  prefix ← read_byte
  pure (if n == 0 && prefix == 0 then 0 else (n + 5) * 4)

-- `agentx_value_dec_try`; the case of the 32-bit types runs on into that of the 64-bit type.
unfoldable pub agentx_value_dec_try : XKind → Parser ℕ
unfolding oid_dec_try read32
agentx_value_dec_try x_int = pure 8
agentx_value_dec_try x_int64 = pure 8
agentx_value_dec_try x_octets = read32
agentx_value_dec_try x_oid = oid_dec_try
agentx_value_dec_try x_none = pure 0

-- The branch of an object identifier in `agentx_value_dec`.
unfoldable pub oid_dec : Parser (List ℕ)
unfolding read_byte skip read_words
oid_dec = do
  n ← read_byte
  prefix ← read_byte
  skip 2
  if n == 0 && prefix == 0
      then pure []
      else (do subs ← read_words n; pure (1 ∷ 3 ∷ 6 ∷ 1 ∷ prefix ∷ subs))

-- `agentx_value_dec`, `none` where no value is stored.
unfoldable pub agentx_value_dec : XKind → Parser (Option Value)
unfolding oid_dec read32 take_bytes skip
agentx_value_dec x_int = do w ← read32; pure (some (word w))
agentx_value_dec x_int64 = do
  low ← read32
  high ← read32
  pure (some (word (low + high * 4294967296)))
agentx_value_dec x_octets = do
  n ← read32
  str ← peek (take_bytes n)
  skip (uint_sizeof n)
  pure (some (octets str))
agentx_value_dec x_oid = do ids ← oid_dec; pure (some (oid ids))
agentx_value_dec x_none = pure none
