-- ===== src/Snmp/Parser/Sound.antt =====
-- What holds of every outcome of a step of the decoder, whatever the bytes.
use smartsnmp.Base.{
  ℕ, suc, ◌+◌, ◌%◌, ◌≡◌, ◌≤◌, ◌<◌, refl, List, [], ◌∷◌, length, drop, take, arith, Bool, true,
  false, leb, ◌==◌, if◌then◌else◌, Option, Option-cases, inl, inr, none, some,
}
use smartsnmp.Base.ListLaws.{length-drop-le, length-take}
use smartsnmp.Base.Bytes.{u32_mod}
use smartsnmp.Ber.Length.{ber_length_dec}
use smartsnmp.Ber.Value.{ber_value_dec}
use smartsnmp.Snmp.Packet.{ErrCode}
use smartsnmp.Snmp.Parser.{
  Parsed, ok, err, fault, Parser, bind, check, or_crash, read_byte, expect, dec_length_size,
  dec_length, take_bytes, skip, int_value, int_field, str_field,
}

-- On success at most `n` bytes are left and the result has the property; the fuel never runs out.
pub data Sound {A : Type 0} (n : ℕ) (P : A → Type 0) : Parsed A → Type 0 where
  done : (a : A) (rest : List ℕ) → length rest ≤ n → P a → Sound n P (ok a rest)
  failed : (e : ErrCode) → Sound n P (err e)
  faulted : Sound n P fault

module _ {A : Type 0} where
  pub Sound-imp :
      {n : ℕ} {P Q : A → Type 0} {r : Parsed A} → Sound n P r → ((a : A) → P a → Q a) → Sound n Q r
  Sound-imp (done a rest l p) h = done a rest l (h a p)
  Sound-imp (failed e) h = failed e
  Sound-imp faulted h = faulted

  pub if-Sound :
      {n : ℕ} {P : A → Type 0} (c : Bool) {r s : Parsed A}
      → (c ≡ true → Sound n P r)
      → (c ≡ false → Sound n P s)
      → Sound n P (if c then r else s)
  if-Sound true t f = t refl
  if-Sound false t f = f refl

module _ {A B : Type 0} where
  pub bind-Sound :
      {n m : ℕ} {P : A → Type 0} {Q : B → Type 0} {r : Parsed A} {f : A → Parser B}
      → Sound n P r
      → ((a : A) (bs : List ℕ) → length bs ≤ n → P a → Sound m Q (f a bs))
      → Sound m Q (bind r f)
  bind-Sound (done a rest l p) h = h a rest l p
  bind-Sound (failed e) h = failed e
  bind-Sound faulted h = faulted

pub expect-Sound :
    (tag : ℕ) (e : ErrCode) (bs : List ℕ) (n : ℕ)
    → length bs ≤ suc n
    → Sound n (λ _. Unit {0}) (expect tag e bs)
unfolding expect
expect-Sound tag e [] n h = faulted
expect-Sound tag e (b ∷ bs) n h =
    if-Sound (b == tag) (λ t. done tt bs (omega arith) tt) (λ f. failed e)

pub check-Sound :
    (c : Bool) (e : ErrCode) (bs : List ℕ) (n : ℕ)
    → length bs ≤ n
    → Sound n (λ _. c ≡ true) (check c e bs)
check-Sound true e bs n h = done tt bs h refl
check-Sound false e bs n h = failed e

pub read_byte-Sound :
    (bs : List ℕ) (n : ℕ) → length bs ≤ suc n → Sound n (λ _. Unit {0}) (read_byte bs)
unfolding read_byte
read_byte-Sound [] n h = faulted
read_byte-Sound (b ∷ bs) n h = done b bs (omega arith) tt

pub dec_length_size-Sound :
    (bs : List ℕ) (n : ℕ) → length bs ≤ n → Sound n (λ _. Unit {0}) (dec_length_size bs)
unfolding dec_length_size
dec_length_size-Sound bs n h = elim (Option-cases (ber_length_dec bs)) [
  | inl e ↦ rw (dec_length_size, e) faulted
  | inr ((v, k), e) ↦
      rw (dec_length_size, e) (done (v, k) (drop k bs) (omega (arith, length-drop-le k bs)) tt)
]

pub dec_length-Sound :
    (bs : List ℕ) (n : ℕ) → length bs ≤ n → Sound n (λ _. Unit {0}) (dec_length bs)
unfolding dec_length
dec_length-Sound bs n h = bind-Sound (dec_length_size-Sound bs n h) λ r rest l p. done r.0 rest l tt

pub take_bytes-Sound :
    (k : ℕ) (bs : List ℕ) (n : ℕ)
    → length bs ≤ n
    → Sound n (λ xs. (length xs ≡ k) × (k ≤ n)) (take_bytes k bs)
unfolding take_bytes
take_bytes-Sound k bs n h =
    if-Sound (leb k (length bs))
      (λ t.
        done (take k bs) (drop k bs) (omega (arith, length-drop-le k bs))
          (length-take k bs (ground arith), ground arith))
      (λ f. faulted)

pub skip-Sound : (k : ℕ) (bs : List ℕ) (n : ℕ) → length bs ≤ n → Sound n (λ _. Unit {0}) (skip k bs)
unfolding skip
skip-Sound k bs n h = done tt (drop k bs) (omega (arith, length-drop-le k bs)) tt

pub or_crash-Sound :
    {A : Type 0} (v : Option A) (bs : List ℕ) (n : ℕ)
    → length bs ≤ n
    → Sound n (λ _. Unit {0}) (or_crash v bs)
or_crash-Sound none bs n h = faulted
or_crash-Sound (some a) bs n h = done a bs h tt

pub int_field-Sound :
    (e : ErrCode) (bs : List ℕ) (n : ℕ) → length bs ≤ n → Sound n (λ _. Unit {0}) (int_field e bs)
unfolding int_field
int_field-Sound e bs n h = bind-Sound (expect-Sound 0x02 e bs n (omega arith)) λ _ bs1 l1 p1.
    bind-Sound (dec_length-Sound bs1 n l1) λ k bs2 l2 p2.
      bind-Sound (take_bytes-Sound k bs2 n l2) λ xs bs3 l3 p3.
        bind-Sound (or_crash-Sound (int_value (ber_value_dec 0x02 xs)) bs3 n l3)
          λ v bs4 l4 p4. done (record { len = k; val = v }) bs4 l4 tt

-- A string of a message of less than 2 GB fits the array with its terminator.
pub str_field-Sound :
    (e too_long : ErrCode) (room : ℕ) (bs : List ℕ) (n : ℕ)
    → length bs ≤ n
    → n < 0x8000_0000
    → Sound n (λ s. length s < room) (str_field e too_long room bs)
unfolding str_field
str_field-Sound e too_long room bs n h lt =
    bind-Sound (expect-Sound 0x04 e bs n (omega arith)) λ _ bs1 l1 p1.
      bind-Sound (dec_length-Sound bs1 n l1) λ k bs2 l2 p2.
        bind-Sound (check-Sound (leb ((k + 1) % u32_mod) room) too_long bs2 n l2)
          λ _ bs3 l3 p3. Sound-imp (take_bytes-Sound k bs3 n l3) λ xs (a, b). ground (arith, p3)
