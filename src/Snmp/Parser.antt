-- ===== src/Snmp/Parser.antt =====
-- The idiom of core/snmp_msg_in.c: a pointer that moves over the received bytes, and error codes.
pub mod Laws
pub mod Sound
use smartsnmp.Base.{ℕ, suc, ◌+◌, ◌%◌, List, [], ◌∷◌, Option, none, some, Bool, true, false}
use smartsnmp.Base.{leb, ◌==◌, if◌then◌else◌, length, take, drop}
use smartsnmp.Base.Bytes.{u32_mod}
use smartsnmp.Ber.Length.{ber_length_dec}
use smartsnmp.Ber.Value.{word, Decoded, nothing, decoded, undefined, ber_value_dec}
use smartsnmp.Snmp.Packet.{ErrCode, Field}

-- `fault` is undefined behaviour: a read behind the buffer, a write behind an array, or a value that
-- `ber_int_dec` does not define. `out_of_fuel` is a loop of the model that was cut off.
pub data Parsed (A : Type 0) : Type 0 where
  ok : A → List ℕ → Parsed A
  err : ErrCode → Parsed A
  fault : Parsed A
  out_of_fuel : Parsed A

-- From the bytes behind the pointer to a value and the bytes behind the new pointer.
abbrev pub Parser : Type 0 → Type 0
Parser A = List ℕ → Parsed A

module _ {A : Type 0} where
  abbrev pub pure : A → Parser A
  pure a bs = ok a bs

  abbrev pub fail : ErrCode → Parser A
  fail e bs = err e

  abbrev pub crash : Parser A
  crash bs = fault

  -- The pointer of the caller does not move.
  unfoldable pub peek : Parser A → Parser A
  peek p bs = elim (p bs) [
    | ok a rest ↦ ok a bs
    | err e ↦ err e
    | fault ↦ fault
    | out_of_fuel ↦ out_of_fuel
  ]

  abbrev pub or_crash : Option A → Parser A
  or_crash none = crash
  or_crash (some a) = pure a

module _ {A B : Type 0} where
  abbrev pub bind : Parsed A → (A → Parser B) → Parsed B
  bind (ok a rest) f = f a rest
  bind (err e) f = err e
  bind fault f = fault
  bind out_of_fuel f = out_of_fuel

  infixl 5 ◌>>=◌
  abbrev pub ◌>>=◌ : Parser A → (A → Parser B) → Parser B
  p >>= f = λ bs. bind (p bs) f

infixl 5 ◌>>◌
abbrev pub ◌>>◌ : {B : Type 0} → Parser (Unit {0}) → Parser B → Parser B
p >> q = p >>= λ _. q

abbrev pub check : Bool → ErrCode → Parser (Unit {0})
check true e = pure tt
check false e = fail e

-- `*buf++`
unfoldable pub read_byte : Parser ℕ
read_byte [] = fault
read_byte (b ∷ bs) = ok b bs

-- `if (*buf++ != tag) { err = e; return err; }`
unfoldable pub expect : ℕ → ErrCode → Parser (Unit {0})
expect tag e [] = fault
expect tag e (b ∷ bs) = if b == tag then ok tt bs else err e

-- `n = ber_length_dec(buf, &len); buf += n;`: the length and `n`.
unfoldable pub dec_length_size : Parser (ℕ × ℕ)
dec_length_size bs = elim (ber_length_dec bs) [ none ↦ fault | some (v, n) ↦ ok (v, n) (drop n bs) ]

unfoldable pub dec_length : Parser ℕ
dec_length = do (v, n) ← dec_length_size; pure v

-- The `n` bytes at the pointer, which then moves behind them.
unfoldable pub take_bytes : ℕ → Parser (List ℕ)
take_bytes n bs = if leb n (length bs) then ok (take n bs) (drop n bs) else fault

-- `buf += n;`
unfoldable pub skip : ℕ → Parser (Unit {0})
skip n bs = ok tt (drop n bs)

-- What `ber_value_dec` leaves in an `int` that was 0.
unfoldable pub int_value : Decoded → Option ℕ
int_value nothing = some 0
int_value (decoded (word w)) = some w
int_value d = none

-- The four statements that decode an integer.
unfoldable pub int_field : ErrCode → Parser Field
int_field e = do
  expect 0x02 e
  n ← dec_length
  bs ← take_bytes n
  v ← or_crash (int_value (ber_value_dec 0x02 bs))
  pure record { len = n; val = v }

-- The statements that decode a string into an array of `room` bytes; the sum is one of `uint32_t`.
unfoldable pub str_field : ErrCode → ErrCode → ℕ → Parser (List ℕ)
str_field e too_long room = do
  expect 0x04 e
  n ← dec_length
  check (leb ((n + 1) % u32_mod) room) too_long
  take_bytes n
