-- ===== src/Snmp/RoundTrip/Loop.antt =====
-- The list of variable bindings of a response is decoded to itself.
use smartsnmp.Base.{
  ℕ, zero, suc, ◌+◌, ◌%◌, ◌≡◌, ◌≤◌, ◌<◌, ◌∙◌, refl, sym, ap, List, [], ◌∷◌, ◌++◌, some, length,
  arith, false, ◌==◌, All, length-append,
}
use mathlib.Core.List.{map}
use smartsnmp.Base.Int.{sub32}
use smartsnmp.Base.Bytes.{IsU32, u32_mod}
use smartsnmp.Ber.Length.{ber_length_enc, ber_length_enc_try}
use smartsnmp.Ber.Length.Laws.{length-ber_length_enc}
use smartsnmp.Snmp.Packet.{VarBind, err_vb_seq}
use smartsnmp.Snmp.Parser.{ok, Parser, pure, bind, peek}
use smartsnmp.Snmp.Parser.Laws.{expect_lem, dec_length_size-enc, skip-append}
use smartsnmp.Snmp.MsgOut.Size.{length-enc_hdr}
use smartsnmp.Snmp.MsgIn.{var_bind_round, var_bind_alloc, var_binds}
use smartsnmp.Snmp.MsgOut.{VbOut, tlv_len, enc_hdr, enc_vbs}
use smartsnmp.Snmp.RoundTrip.VarBinds.{
  IsReply, body, as_in, list_len, body-append, oid_bytes, length-body, vb_len-small,
  var_bind_alloc-body,
}

peek_lem :
    {A : Type 0} (p : Parser A) (a : A) (bs rest : List ℕ) → p bs ≡ ok a rest → peek p bs ≡ ok a bs
unfolding peek
peek_lem p a bs rest e = rw (peek, e) refl

-- One round of the loop.
round :
    (vb : VbOut) (rest : List ℕ)
    → IsReply vb
    → tlv_len vb.vb_len < u32_mod
    → var_bind_round (enc_hdr 0x30 vb.vb_len (body vb rest)) ≡ ok (as_in vb, tlv_len vb.vb_len) rest
unfolding var_bind_round enc_hdr tlv_len
round vb rest h lt =
    let small : IsU32 vb.vb_len = omega (arith, vb_len-small vb h) in
    let len = length-ber_length_enc vb.vb_len small in
    let used : (1 + length (ber_length_enc vb.vb_len) + vb.vb_len) % u32_mod ≡ tlv_len vb.vb_len =
      omega (arith, len.0) in
    rw
      (
        expect_lem 0x30 err_vb_seq (ber_length_enc vb.vb_len ++ body vb rest),
        dec_length_size-enc vb.vb_len (body vb rest) small,
        peek_lem var_bind_alloc (as_in vb) (body vb rest) rest (var_bind_alloc-body vb rest h),
        body-append vb rest,
        skip-append (body vb []) rest vb.vb_len (sym (length-body vb h)),
        used,
      )
      refl

loop_step :
    (fuel len used : ℕ) (vb : VarBind) (bs rest : List ℕ)
    → (len == 0) ≡ false
    → var_bind_round bs ≡ ok (vb, used) rest
    → var_binds (suc fuel) len bs
      ≡ bind (var_binds fuel (sub32 len used) rest) (λ vbs. pure (vb ∷ vbs))
unfolding var_binds
loop_step fuel len used vb bs rest e r = rw (var_binds, e, r) refl

loop_round :
    (fuel : ℕ) (vb : VbOut) (vbs : List VbOut) (bs : List ℕ)
    → IsReply vb
    → suc (length vbs) < fuel
    → tlv_len vb.vb_len + list_len vbs < u32_mod
    → ((fuel : ℕ)
        → length vbs < fuel
        → list_len vbs < u32_mod
        → var_binds fuel (list_len vbs) bs ≡ ok (map as_in vbs) [])
    → var_binds fuel (tlv_len vb.vb_len + list_len vbs) (enc_hdr 0x30 vb.vb_len (body vb bs))
      ≡ ok (as_in vb ∷ map as_in vbs) []
loop_round zero vb vbs bs h f lt back = elim f [ ]
loop_round (suc fuel) vb vbs bs h f lt back =
    let one : 1 ≤ tlv_len vb.vb_len = unfold tlv_len in omega arith in
    let more : (tlv_len vb.vb_len + list_len vbs == 0) ≡ false = ground (arith, one) in
    let left : sub32 (tlv_len vb.vb_len + list_len vbs) (tlv_len vb.vb_len) ≡ list_len vbs =
      omega arith in
    loop_step fuel _ (tlv_len vb.vb_len) (as_in vb) _ bs more (round vb bs h (omega arith))
    ∙ rw (left, back fuel (omega arith) (omega arith)) refl

-- The bytes of a list of bindings: the length of the list, and what they are decoded to.
pub enc_vbs-IsReply :
    (vbs : List VbOut)
    → All IsReply vbs
    → (bs : List ℕ) × (enc_vbs vbs ≡ some bs)
      × (length bs ≡ list_len vbs)
      × ((fuel : ℕ)
          → length vbs < fuel
          → list_len vbs < u32_mod
          → var_binds fuel (list_len vbs) bs ≡ ok (map as_in vbs) [])
unfolding enc_vbs list_len
enc_vbs-IsReply [] h = ([], refl, refl, λ fuel lt small. nothing_left fuel lt)
  where
    nothing_left : (fuel : ℕ) → 0 < fuel → var_binds fuel 0 [] ≡ ok [] []
    nothing_left zero l = elim l [ ]
    nothing_left (suc fuel) l = unfold var_binds in refl
enc_vbs-IsReply (vb ∷ vbs) (h, hs) =
    let (bs, e, len, back) = enc_vbs-IsReply vbs hs in
    let (t, d, c) = oid_bytes vb h in
    (
      enc_hdr 0x30 vb.vb_len (body vb bs),
      rw (enc_vbs, t, e) refl,
      omega (
        arith,
        len,
        length-enc_hdr 0x30 vb.vb_len (body vb bs) (omega (arith, vb_len-small vb h)),
        ap length (body-append vb bs),
        length-append {0} (body vb []) bs,
        length-body vb h,
        tlv vb.vb_len,
      ),
      λ fuel f lt. loop_round fuel vb vbs bs h f lt back,
    )
  where
    tlv : (n : ℕ) → tlv_len n ≡ 1 + ber_length_enc_try n + n
    tlv n = unfold tlv_len in refl
