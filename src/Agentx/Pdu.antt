-- ===== src/Agentx/Pdu.antt =====
-- The builders of core/agentx_msg_out.c. A string is its bytes, as many as its length says, without a 0. `none` is a
-- failed assertion, or a value that is shorter than its type; what is computed as the size of the buffer
-- is `payload_length`, plus the 20 bytes of the header.
use smartsnmp.Base.{ℕ, ◌+◌, ◌-◌, ◌*◌, ◌/◌, ◌%◌, List, [], ◌∷◌, ◌++◌, Option, none, some, ◌||◌, ◌&&◌}
use smartsnmp.Base.{if◌then◌else◌, ltb, leb, ◌==◌, length, drop, take, get_or}
use smartsnmp.Base.Bytes.{u32_mod}
use smartsnmp.Agentx.{
  zeros, XPduHdr, XVarBind, word32, word16, uint_sizeof, x_pdu_hdr, x_objid, x_octstr,
}

-- `xdg->pdu_hdr.packet_id += 1`
unfoldable pub next_packet : XPduHdr → XPduHdr
next_packet ph = record ph { packet_id = (ph.packet_id + 1) % u32_mod }

unfoldable pub agentx_open_pdu : XPduHdr → List ℕ → List ℕ → Option (List ℕ)
unfolding x_pdu_hdr x_objid x_octstr
agentx_open_pdu ph oid descr =
    let n = length oid in
    let pad = uint_sizeof (length descr) % u32_mod in
    let len = (20 + 4 + 4 + (n - 5) * 4 + 4 + pad) % u32_mod in
    if n == 0 || (ltb 4 n && leb (n + 5) 64 && leb (length descr) 1024)
    then some (
        x_pdu_hdr record {
          version = 1;
          type = 1;
          flags = 0;
          session_id = ph.session_id;
          transaction_id = ph.transaction_id;
          packet_id = 1;
          payload_length = (len + u32_mod - 20) % u32_mod;
        }
        ++ ((0 ∷ 0 ∷ 0 ∷ 0 ∷ []) ++ (x_objid oid ++ x_octstr pad descr)))
    else none

-- The header of a PDU of a session.
unfoldable pub session_hdr : XPduHdr → ℕ → ℕ → ℕ → XPduHdr
session_hdr ph type flags len = record ph {
  type = type;
  flags = flags;
  payload_length = (len + u32_mod - 20) % u32_mod;
}

-- The new state of `xdg->pdu_hdr`, and the bytes.
unfoldable pub agentx_close_pdu : XPduHdr → ℕ → XPduHdr × List ℕ
unfolding next_packet session_hdr x_pdu_hdr
agentx_close_pdu ph reason =
    let ph' = next_packet ph in (ph', x_pdu_hdr (session_hdr ph' 2 ph'.flags 24) ++ word32 reason)

-- `flags | INSTANCE_REGISTRATION`
unfoldable pub instance_registration : ℕ → ℕ
instance_registration flags = if flags % 2 == 0 then flags + 1 else flags

-- The optional context.
unfoldable pub x_context : List ℕ → List ℕ
unfolding x_octstr
x_context context =
    if uint_sizeof (length context) == 0
    then []
    else x_octstr (uint_sizeof (length context)) context

unfoldable pub context_size : List ℕ → ℕ
context_size context =
    if uint_sizeof (length context) == 0 then 0 else 4 + uint_sizeof (length context)

-- The optional upper bound.
unfoldable pub x_upper : ℕ → ℕ → List ℕ
x_upper range_subid upper_bound = if range_subid == 0 then [] else word32 upper_bound

unfoldable pub upper_size : ℕ → ℕ
upper_size range_subid = if range_subid == 0 then 0 else 4

-- `agentx_register_pdu` and `agentx_unregister_pdu`, which differ in the type and the first byte.
unfoldable pub region_pdu :
    ℕ → ℕ → XPduHdr → List ℕ → List ℕ → ℕ → ℕ → ℕ → Option (XPduHdr × List ℕ)
unfolding next_packet session_hdr x_pdu_hdr x_objid x_context instance_registration context_size
    x_upper upper_size
region_pdu type timeout ph oid context priority range_subid upper_bound =
    let n = length oid in
    let len = 20 + context_size context + (4 + 4 + (n - 5) * 4) + upper_size range_subid in
    let ph' = next_packet ph in
    if ltb 4 n && leb (n + 5) 64 && leb (length context) 40
    then some (
      ph',
      x_pdu_hdr (session_hdr ph' type (instance_registration ph'.flags) len)
          ++ (x_context context
              ++ ((timeout % 256 ∷ priority % 256 ∷ range_subid % 256 ∷ 0 ∷ [])
                  ++ (x_objid oid ++ x_upper range_subid upper_bound))),
    )
    else none

unfoldable pub agentx_register_pdu :
    XPduHdr → List ℕ → List ℕ → ℕ → ℕ → ℕ → ℕ → Option (XPduHdr × List ℕ)
unfolding region_pdu
agentx_register_pdu ph oid context timeout priority range_subid upper_bound =
    region_pdu 3 timeout ph oid context priority range_subid upper_bound

unfoldable pub agentx_unregister_pdu :
    XPduHdr → List ℕ → List ℕ → ℕ → ℕ → ℕ → ℕ → Option (XPduHdr × List ℕ)
unfolding region_pdu
agentx_unregister_pdu ph oid context timeout priority range_subid upper_bound =
    region_pdu 4 0 ph oid context priority range_subid upper_bound

unfoldable pub agentx_ping_pdu : XPduHdr → List ℕ → Option (XPduHdr × List ℕ)
unfolding next_packet session_hdr x_pdu_hdr x_context context_size
agentx_ping_pdu ph context =
    let ph' = next_packet ph in
    if ltb (length context) 40
    then some (
      ph',
      x_pdu_hdr (session_hdr ph' 13 ph'.flags (20 + context_size context)) ++ x_context context,
    )
    else none

-- The cases of the two switches of `agentx_response_pdu`.
pub data XKind : Type 0 where
  x_int : XKind
  x_int64 : XKind
  x_octets : XKind
  x_oid : XKind
  x_none : XKind

unfoldable pub x_kind : ℕ → XKind
x_kind type =
    if type == 0x02 || type == 0x41 || type == 0x42 || type == 0x43
    then x_int
    else (if type == 0x46
        then x_int64
        else (if type == 0x04 || type == 0x40
            then x_octets
            else (if type == 0x06 then x_oid else x_none)))

-- What the first loop adds for the data of a binding.
unfoldable pub data_size : XKind → ℕ → ℕ
data_size x_int n = 4
data_size x_int64 n = 8
data_size x_octets n = 4 + uint_sizeof n
data_size x_oid n = 4 + (n - 20)
data_size x_none n = 0

unfoldable pub vb_size : XVarBind → ℕ
unfolding data_size x_kind
vb_size vb = 4 + 4 + (length vb.oid - 5) * 4 + data_size (x_kind vb.val_type) (length vb.value)

unfoldable pub vbs_size : List XVarBind → ℕ
unfolding vb_size
vbs_size [] = 0
vbs_size (vb ∷ vbs) = vb_size vb + vbs_size vbs

-- The bytes that `n` elements of the value need.
unfoldable pub at_least : ℕ → List ℕ → Option (List ℕ)
at_least n value = if leb n (length value) then some (take n value) else none

-- What the second loop writes for the data into the cleared buffer; an object identifier is copied word
-- by word, and the pointer moves by its bytes.
unfoldable pub data_bytes : XKind → List ℕ → Option (List ℕ)
unfolding at_least x_octstr
data_bytes x_int value = at_least 4 value
data_bytes x_int64 value = at_least 8 value
data_bytes x_octets value = some (x_octstr (length value) value)
data_bytes x_oid value = some (
    ((length value - 20) / 4 % 256 ∷ get_or value 16 0 ∷ 0 ∷ 0 ∷ [])
    ++ (drop 20 (take (length value / 4 * 4) value)
        ++ zeros (length value - 20 - (length value / 4 * 4 - 20))))
data_bytes x_none value = some []

unfoldable pub vb_bytes : XVarBind → Option (List ℕ)
unfolding data_bytes x_kind x_objid
vb_bytes vb = elim (data_bytes (x_kind vb.val_type) vb.value) [
  | none ↦ none
  | some value ↦ some ((word16 vb.val_type ++ (0 ∷ 0 ∷ [])) ++ (x_objid vb.oid ++ value))
]

unfoldable pub vbs_bytes : List XVarBind → Option (List ℕ)
unfolding vb_bytes
vbs_bytes [] = some []
vbs_bytes (vb ∷ vbs) = elim (vb_bytes vb) [
  | none ↦ none
  | some b ↦ elim (vbs_bytes vbs) [ none ↦ none | some bs ↦ some (b ++ bs) ]
]

unfoldable pub agentx_response_pdu : XPduHdr → ℕ → ℕ → List XVarBind → Option (List ℕ)
unfolding session_hdr x_pdu_hdr vbs_size vbs_bytes
agentx_response_pdu ph error index vb_out_list = elim (vbs_bytes vb_out_list) [
  | none ↦ none
  | some bytes ↦ some (
      x_pdu_hdr (session_hdr ph 18 ph.flags ((28 + vbs_size vb_out_list) % u32_mod))
      ++ ((0 ∷ 0 ∷ 0 ∷ 0 ∷ []) ++ (word16 error ++ (word16 index ++ bytes))))
]
