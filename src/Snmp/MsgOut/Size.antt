-- ===== src/Snmp/MsgOut/Size.antt =====
-- The size that core/snmp_msg_out.c announces against the bytes that it writes.
use smartsnmp.Base.{ℕ, ◌+◌, ◌≡◌, ◌<◌, List, ◌++◌, length, length-append, arith}
use smartsnmp.Base.Bytes.{IsU32, u32_mod}
use smartsnmp.Ber.Integer.{ber_int_enc}
use smartsnmp.Ber.Length.{ber_length_enc, ber_length_enc_try}
use smartsnmp.Ber.Length.Laws.{length-ber_length_enc}
use smartsnmp.Snmp.Packet.{Field, PduHdr}
use smartsnmp.Snmp.MsgOut.{tlv_len, enc_hdr, enc_int, enc_str, pdu_len, pdu_encode}

pub length-enc_hdr :
    (tag n : ℕ) (bs : List ℕ)
    → IsU32 n
    → length (enc_hdr tag n bs) ≡ 1 + ber_length_enc_try n + length bs
unfolding enc_hdr
length-enc_hdr tag n bs h =
    omega (arith, length-append {0} (ber_length_enc n) bs, (length-ber_length_enc n h).0)

pub tlv_len_lem : (n : ℕ) → tlv_len n ≡ 1 + ber_length_enc_try n + n
unfolding tlv_len
tlv_len_lem n = omega arith

-- The bytes that an integer takes.
abbrev pub real : Field → ℕ
real f = length (ber_int_enc f.val)

pub length-enc_int :
    (f : Field) (bs : List ℕ)
    → IsU32 f.len
    → length (enc_int f bs) + f.len ≡ tlv_len f.len + real f + length bs
unfolding enc_int
length-enc_int f bs h = omega (
  arith,
  tlv_len_lem f.len,
  length-enc_hdr 0x02 f.len (ber_int_enc f.val ++ bs) h,
  length-append {0} (ber_int_enc f.val) bs,
)

pub length-enc_str :
    (s bs : List ℕ) → IsU32 (length s) → length (enc_str s bs) ≡ tlv_len (length s) + length bs
unfolding enc_str
length-enc_str s bs h = omega (
  arith,
  tlv_len_lem (length s),
  length-enc_hdr 0x04 (length s) (s ++ bs) h,
  length-append {0} s bs,
)

-- The lengths that are announced for the integers of a header, and the bytes that these take.
abbrev pub pdu_lens : PduHdr → ℕ
pdu_lens ph = ph.req_id.len + ph.err_stat.len + ph.err_idx.len

abbrev pub pdu_reals : PduHdr → ℕ
pdu_reals ph = real ph.req_id + real ph.err_stat + real ph.err_idx

pub length-pdu_encode :
    (ph : PduHdr) (len : ℕ) (bs : List ℕ)
    → IsU32 len
    → length bs ≡ len
    → length (pdu_encode ph len bs) + pdu_lens ph < u32_mod
    → length (pdu_encode ph len bs) + pdu_lens ph ≡ tlv_len (pdu_len ph len) + pdu_reals ph
unfolding pdu_encode pdu_len
length-pdu_encode ph len bs u e h =
    let list = enc_hdr 0x30 len bs in
    let idx = enc_int ph.err_idx list in
    let stat = enc_int ph.err_stat idx in
    let small : IsU32 (pdu_len ph len) = omega arith in
    omega (
      arith,
      tlv_len_lem (pdu_len ph len),
      tlv_len_lem len,
      length-enc_hdr ph.pdu_type (pdu_len ph len) (enc_int ph.req_id stat) small,
      length-enc_int ph.req_id stat (omega arith),
      length-enc_int ph.err_stat idx (omega arith),
      length-enc_int ph.err_idx list (omega arith),
      length-enc_hdr 0x30 len bs u,
    )
