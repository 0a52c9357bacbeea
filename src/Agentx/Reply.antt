-- ===== src/Agentx/Reply.antt =====
-- A whole response: what core/agentx_msg_out.c builds, decoded by `agentx_decode` of core/agentx_msg_in.c.
use mathlib.Core.List.{append-nil}
use smartsnmp.Agentx.{XPduHdr, XVarBind, word16, x_pdu_hdr}
use smartsnmp.Base.{
  ℕ, ◌+◌, ◌-◌, ◌*◌, ◌%◌, ◌≡◌, ◌<◌, ◌∙◌, refl, sym, ap, subst, arith, List, [], ◌∷◌, ◌++◌, some,
  length, false,
}
use smartsnmp.Agentx.Bindings.{AreReadBack, then-ok, parse_loop-vbs_bytes, length_le_vbs_size}
use smartsnmp.Agentx.Decoder.{ok, bind}
use smartsnmp.Agentx.MsgIn.{
  XVarIn, XHead, Contents, bindings, response, network_order, has_context, context_parse,
  additional_parse, pdu_hdr_parse, less_payload, contents_parse, parse_loop, var_bind_alloc,
  agentx_decode,
}
use smartsnmp.Agentx.Pdu.{vbs_bytes, vbs_size, session_hdr, agentx_response_pdu}
use smartsnmp.Agentx.RoundTrip.{IsHdr, fields_parse-x_pdu_hdr}
use smartsnmp.Agentx.Sizes.{length-vbs_bytes}
use smartsnmp.Base.Bytes.{u32_mod, byte}
use smartsnmp.Snmp.MsgProc.Sizes.{bind-some, some-inj}

-- The header of a response: `payload_length` is what the decoder has left of it.
unfoldable pub reply_hdr : XPduHdr → ℕ → XPduHdr
reply_hdr ph payload = record ph { type = 18; payload_length = payload }

reply_hdr-IsHdr : (ph : XPduHdr) (n : ℕ) → IsHdr ph → n < u32_mod → IsHdr (reply_hdr ph n)
unfolding reply_hdr
reply_hdr-IsHdr ph n h lt = record {
  version = h.version;
  type = omega arith;
  flags = h.flags;
  session_id = h.session_id;
  transaction_id = h.transaction_id;
  packet_id = h.packet_id;
  payload_length = lt;
  host_order = h.host_order;
}

context_parse-none :
    (ph : XPduHdr) (bs : List ℕ)
    → has_context ph.flags ≡ false
    → context_parse ph bs ≡ ok ([], ph) bs
unfolding context_parse
context_parse-none ph bs e = rw e refl

-- The additional data of a response.
additional_parse-response :
    (ph : XPduHdr) (error index n : ℕ) (rest : List ℕ)
    → network_order ph.flags ≡ false
    → error < 65536
    → index < 65536
    → n + 8 < u32_mod
    → additional_parse
        (reply_hdr ph (n + 8))
        ((0 ∷ 0 ∷ 0 ∷ 0 ∷ []) ++ (word16 error ++ (word16 index ++ rest)))
      ≡ ok (response 0 error index, reply_hdr ph n) rest
unfolding additional_parse less_payload reply_hdr
additional_parse-response ph error index n rest f he hi lt =
    let left : (n + 8 + u32_mod - 8) % u32_mod ≡ n = omega (arith, lt) in
    let e : byte error 0 + byte error 1 * 256 ≡ error = omega arith in
    let i : byte index 0 + byte index 1 * 256 ≡ index = omega arith in rw (f, e, i, left) refl

unfoldable pub reply_head : XPduHdr → ℕ → ℕ → ℕ → XHead
reply_head ph error index n = record {
  pdu_hdr = reply_hdr ph n;
  context = [];
  u = response 0 error index;
}

-- The contents of a response behind its header.
contents_parse-response :
    (ph : XPduHdr) (error index : ℕ) (vbs : List XVarBind) (ins : List XVarIn) (bytes : List ℕ)
    → network_order ph.flags ≡ false
    → AreReadBack vbs ins
    → vbs_size vbs < u32_mod
    → vbs_bytes vbs ≡ some bytes
    → contents_parse (reply_head ph error index (vbs_size vbs)) bytes ≡ ok (bindings ins) []
unfolding contents_parse reply_head reply_hdr
contents_parse-response ph error index vbs ins bytes f h lt e =
    let more : length vbs < length bytes + 1 =
      omega (arith, length_le_vbs_size vbs, length-vbs_bytes vbs bytes e) in
    let run = parse_loop-vbs_bytes ph.flags (length bytes + 1) vbs ins bytes [] f h more lt e in
    let run' : parse_loop (length bytes + 1) (var_bind_alloc ph.flags) (vbs_size vbs) bytes
        ≡ ok ins [] =
      ap (parse_loop (length bytes + 1) (var_bind_alloc ph.flags) (vbs_size vbs))
        (sym (append-nil bytes))
      ∙ run in
    ap (λ r. bind r (λ vbs. λ bs. ok (bindings vbs) bs)) run'

pdu_hdr_parse-response :
    (ph : XPduHdr) (error index n : ℕ) (rest : List ℕ)
    → IsHdr ph
    → has_context ph.flags ≡ false
    → error < 65536
    → index < 65536
    → n + 8 < u32_mod
    → pdu_hdr_parse (
        x_pdu_hdr (reply_hdr ph (n + 8))
        ++ ((0 ∷ 0 ∷ 0 ∷ 0 ∷ []) ++ (word16 error ++ (word16 index ++ rest))))
      ≡ ok (reply_head ph error index n) rest
unfolding pdu_hdr_parse reply_head reply_hdr
pdu_hdr_parse-response ph error index n rest h c he hi lt =
    let behind = (0 ∷ 0 ∷ 0 ∷ 0 ∷ []) ++ (word16 error ++ (word16 index ++ rest)) in
    let get_fields =
      fields_parse-x_pdu_hdr (reply_hdr ph (n + 8)) behind (reply_hdr-IsHdr ph (n + 8) h lt) in
    let get_context = context_parse-none (reply_hdr ph (n + 8)) behind c in
    let get_more = additional_parse-response ph error index n rest h.host_order he hi lt in
    search then-ok depth 6

decode_parts :
    (head : XHead) (c : Contents) (bs rest : List ℕ)
    → pdu_hdr_parse bs ≡ ok head rest
    → contents_parse head rest ≡ ok c []
    → agentx_decode bs ≡ ok (head, c) []
unfolding agentx_decode
decode_parts head c bs rest e e' = search then-ok

-- A response is decoded as it was built: if the fields of its header have their widths, it has the byte order of
-- the host and no context, the error and the index fit 16 bits, the bindings take less than 4 GB, and each can be
-- read back (`IsReadBack`: a type of one byte, an object identifier of 5 to 64 32-bit words 1.3.6.1.p.… with p
-- between 1 and 255, and a value stored as its type says, a string of at most 1024 bytes, an object identifier as
-- that of the binding), `agentx_decode` gives the bindings.
pub agentx_decode-response :
    (ph : XPduHdr) (error index : ℕ) (vbs : List XVarBind) (ins : List XVarIn) (bytes : List ℕ)
    → IsHdr ph
    → has_context ph.flags ≡ false
    → error < 65536
    → index < 65536
    → AreReadBack vbs ins
    → vbs_size vbs < 0xffff_ff00
    → agentx_response_pdu ph error index vbs ≡ some bytes
    → agentx_decode bytes ≡ ok (reply_head ph error index (vbs_size vbs), bindings ins) []
unfolding agentx_response_pdu session_hdr reply_hdr
agentx_decode-response ph error index vbs ins bytes h c he hi hs lt e =
    let (b, e1, g) = bind-some (vbs_bytes vbs) _ bytes e in
    let n = vbs_size vbs in
    let payload : ((28 + n) % u32_mod + u32_mod - 20) % u32_mod ≡ n + 8 = omega (arith, lt) in
    let behind = (0 ∷ 0 ∷ 0 ∷ 0 ∷ []) ++ (word16 error ++ (word16 index ++ b)) in
    let get_head = pdu_hdr_parse-response ph error index n b h c he hi (omega (arith, lt)) in
    let get_contents =
      contents_parse-response ph error index vbs ins b h.host_order hs (omega (arith, lt)) e1 in
    let built = some-inj _ bytes g in
    let sent =
      decode_parts (reply_head ph error index n) (bindings ins)
        (x_pdu_hdr (reply_hdr ph (n + 8)) ++ behind) b get_head get_contents in
    subst (λ (z : List ℕ). agentx_decode z ≡ ok (reply_head ph error index n, bindings ins) [])
      built
      (subst
        (λ p.
          agentx_decode (x_pdu_hdr (reply_hdr ph p) ++ behind)
          ≡ ok (reply_head ph error index n, bindings ins) [])
        (sym payload) sent)
