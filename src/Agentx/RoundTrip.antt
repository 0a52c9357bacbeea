-- ===== src/Agentx/RoundTrip.antt =====
-- The decoder of core/agentx_msg_in.c on what the builders of core/agentx_msg_out.c write.
use smartsnmp.Base.{ℕ, ◌+◌, ◌-◌, ◌*◌, ◌%◌, ◌≡◌, ◌<◌, refl, sym, ap, subst, arith}
use smartsnmp.Base.{List, [], ◌∷◌, ◌++◌, length, All, leb, le→leb, ==_apart, ◌==◌, true, false}
use smartsnmp.Base.{Bool, ◌&&◌}
use smartsnmp.Base.Bytes.{byte, IsU32}
use smartsnmp.Agentx.{XPduHdr, word32, word16, words, x_pdu_hdr, x_objid}
use smartsnmp.Agentx.Decoder.{ok, read_byte, read32, read16, read_words, skip, oid_dec}
use smartsnmp.Agentx.MsgIn.{network_order, int32, fields_parse}

pub joined :
    (w : ℕ) → IsU32 w → byte w 0 + byte w 1 * 256 + byte w 2 * 65536 + byte w 3 * 16777216 ≡ w
joined w h = omega arith

pub and_false : (b : Bool) → (b && false) ≡ false
and_false true = refl
and_false false = refl

pub read32-word32 : (w : ℕ) (rest : List ℕ) → IsU32 w → read32 (word32 w ++ rest) ≡ ok w rest
unfolding read32
read32-word32 w rest h = ap (λ z. ok z rest) (omega arith)

pub read16-word16 : (w : ℕ) (rest : List ℕ) → w < 65536 → read16 (word16 w ++ rest) ≡ ok w rest
unfolding read16
read16-word16 w rest h = ap (λ z. ok z rest) (omega arith)

pub read_words-words :
    (xs rest : List ℕ) → All IsU32 xs → read_words (length xs) (words xs ++ rest) ≡ ok xs rest
unfolding read_words
read_words-words [] rest h = refl
read_words-words (x ∷ xs) rest h = rw (joined x h.0, read_words-words xs rest h.1) refl

-- An identifier below 1.3.6.1 with a fifth element of one byte.
pub record IsInternet (ids : List ℕ) : Type 0 where
  pub prefix : ℕ
  pub subs : List ℕ
  pub split : ids ≡ 1 ∷ 3 ∷ 6 ∷ 1 ∷ prefix ∷ subs
  pub byte : prefix < 256
  pub positive : 0 < prefix
  pub few : length subs < 60
  pub words : All IsU32 subs

-- An object identifier below 1.3.6.1, of at most 64 elements and with a fifth between 1 and 255, is decoded as it was.
pub oid_dec-x_objid :
    (ids rest : List ℕ) → IsInternet ids → oid_dec (x_objid ids ++ rest) ≡ ok ids rest
unfolding oid_dec x_objid read_byte skip
oid_dec-x_objid ids rest h =
    let p = h.prefix in
    let subs = h.subs in
    let ids' = 1 ∷ 3 ∷ 6 ∷ 1 ∷ p ∷ subs in
    let body = words subs ++ rest in
    let n : (length ids' - 5) % 256 ≡ length subs = omega (arith, h.few) in
    let q : p % 256 ≡ p = omega (arith, h.byte) in
    let two : leb 2 (length (0 ∷ 0 ∷ body)) ≡ true =
      le→leb 2 (length (0 ∷ 0 ∷ body)) (omega arith) in
    let z : (p == 0) ≡ false = ==_apart p 0 (omega (arith, h.positive)) in
    subst (λ z. oid_dec (x_objid z ++ rest) ≡ ok z rest) (sym h.split)
      (rw (n, q, two, z, and_false (length subs == 0), read_words-words subs rest h.words) refl)

-- A header whose fields have their widths.
pub record IsHdr (ph : XPduHdr) : Type 0 where
  pub version : ph.version < 256
  pub type : ph.type < 256
  pub flags : ph.flags < 256
  pub session_id : IsU32 ph.session_id
  pub transaction_id : IsU32 ph.transaction_id
  pub packet_id : IsU32 ph.packet_id
  pub payload_length : IsU32 ph.payload_length
  pub host_order : network_order ph.flags ≡ false

pub int32-word32 :
    (flags w : ℕ) (rest : List ℕ)
    → network_order flags ≡ false
    → IsU32 w
    → int32 flags (word32 w ++ rest) ≡ ok w rest
unfolding int32
int32-word32 flags w rest f h = rw (f, joined w h) refl

-- A header whose fields have their widths, with the byte order of the host in its flags, is decoded as it was.
pub fields_parse-x_pdu_hdr :
    (ph : XPduHdr) (rest : List ℕ) → IsHdr ph → fields_parse (x_pdu_hdr ph ++ rest) ≡ ok ph rest
unfolding fields_parse x_pdu_hdr read_byte
fields_parse-x_pdu_hdr ph rest h =
    let v : ph.version % 256 ≡ ph.version = omega (arith, h.version) in
    let t : ph.type % 256 ≡ ph.type = omega (arith, h.type) in
    let f : ph.flags % 256 ≡ ph.flags = omega (arith, h.flags) in
    rw
      (
        v,
        t,
        f,
        h.host_order,
        joined ph.session_id h.session_id,
        joined ph.transaction_id h.transaction_id,
        joined ph.packet_id h.packet_id,
        joined ph.payload_length h.payload_length,
      )
      refl
