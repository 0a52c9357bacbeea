-- ===== src/Snmp/Parser/Laws.antt =====
-- Each step of the decoder on the bytes that it expects.
use smartsnmp.Base.{ℕ, ◌≡◌, refl, List, ◌∷◌, ◌++◌, length, le→leb, ==_refl}
use smartsnmp.Base.ListLaws.{drop-append, take-append, length-le-append}
use smartsnmp.Base.Bytes.{IsU32}
use smartsnmp.Ber.Length.{ber_length_enc}
use smartsnmp.Ber.Length.Laws.{ber_length_dec-ber_length_enc}
use smartsnmp.Snmp.Packet.{ErrCode}
use smartsnmp.Snmp.Parser.{ok, read_byte, expect, dec_length_size, dec_length, take_bytes, skip}

pub expect_lem : (tag : ℕ) (e : ErrCode) (bs : List ℕ) → expect tag e (tag ∷ bs) ≡ ok tt bs
unfolding expect
expect_lem tag e bs = rw (==_refl tag) refl

pub read_byte_lem : (b : ℕ) (bs : List ℕ) → read_byte (b ∷ bs) ≡ ok b bs
unfolding read_byte
read_byte_lem b bs = refl

pub dec_length_size-enc :
    (n : ℕ) (bs : List ℕ)
    → IsU32 n
    → dec_length_size (ber_length_enc n ++ bs) ≡ ok (n, length (ber_length_enc n)) bs
unfolding dec_length_size
dec_length_size-enc n bs h =
    rw (dec_length_size, ber_length_dec-ber_length_enc n bs h, drop-append (ber_length_enc n) bs)
      refl

pub dec_length-enc : (n : ℕ) (bs : List ℕ) → IsU32 n → dec_length (ber_length_enc n ++ bs) ≡ ok n bs
unfolding dec_length
dec_length-enc n bs h = rw (dec_length_size-enc n bs h) refl

pub take_bytes-append :
    (xs bs : List ℕ) (n : ℕ) → n ≡ length xs → take_bytes n (xs ++ bs) ≡ ok xs bs
unfolding take_bytes
take_bytes-append xs bs n e =
    rw
      (
        e,
        le→leb (length xs) (length (xs ++ bs)) (length-le-append xs bs),
        take-append xs bs,
        drop-append xs bs,
      )
      refl

pub skip-append : (xs bs : List ℕ) (n : ℕ) → n ≡ length xs → skip n (xs ++ bs) ≡ ok tt bs
unfolding skip
skip-append xs bs n e = rw (e, drop-append xs bs) refl
