-- ===== src/Agentx/MsgIn.antt =====
-- The decoder of PDUs, core/agentx_msg_in.c.
use smartsnmp.Base.{ℕ, zero, suc, ◌+◌, ◌-◌, ◌*◌, ◌/◌, ◌%◌, List, [], ◌∷◌, Option, Bool}
use smartsnmp.Base.{leb, ◌==◌, ◌||◌, if◌then◌else◌, length}
use smartsnmp.Base.Bytes.{u32_mod}
use smartsnmp.Ber.Value.{Value}
use smartsnmp.Agentx.{XPduHdr, uint_sizeof}
use smartsnmp.Agentx.Pdu.{x_kind}
use smartsnmp.Agentx.Decoder.{
  Parsed, ok, out_of_fuel, Parser, err_ctx_len, err_vb_value_len, err_vb_oid_len, err_sr_oid_len,
  bind, pure, ◌>>=◌, ◌>>◌, check, peek, read_byte, read32, read16, take_bytes, skip, oid_dec_try,
  oid_dec, agentx_value_dec_try, agentx_value_dec,
}

-- `struct x_var_bind` as it is decoded.
pub record XVarIn : Type 0 where
  pub oid : List ℕ
  pub val_type : ℕ
  pub value : Option Value

-- `struct x_search_range`
pub record XSearchRange : Type 0 where
  pub start : List ℕ
  pub end_oid : List ℕ
  pub start_include : ℕ
  pub end_include : ℕ

-- The union of the additional data.
pub data Additional : Type 0 where
  nothing : Additional
  close : ℕ → Additional
  getbulk : ℕ → ℕ → Additional
  response : ℕ → ℕ → ℕ → Additional

-- What `pdu_hdr_parse` leaves in `struct agentx_datagram`.
pub record XHead : Type 0 where
  pub pdu_hdr : XPduHdr
  pub context : List ℕ
  pub u : Additional

-- `flags & NETWORD_BYTE_ORDER` and `flags & NON_DEFAULT_CONTEXT`
unfoldable pub network_order : ℕ → Bool
network_order flags = flags / 16 % 2 == 1

unfoldable pub has_context : ℕ → Bool
has_context flags = flags / 8 % 2 == 1

-- `NTOH32` and `NTOH16`, on a little-endian host.
unfoldable pub ntoh32 : ℕ → ℕ
ntoh32 w = w % 256 * 16777216 + w / 256 % 256 * 65536 + w / 65536 % 256 * 256 + w / 16777216 % 256

unfoldable pub ntoh16 : ℕ → ℕ
ntoh16 w = w % 256 * 256 + w / 256 % 256

unfoldable pub int32 : ℕ → Parser ℕ
unfolding network_order ntoh32 read32
int32 flags = do w ← read32; pure (if network_order flags then ntoh32 w else w)

unfoldable pub int16 : ℕ → Parser ℕ
unfolding network_order ntoh16 read16
int16 flags = do w ← read16; pure (if network_order flags then ntoh16 w else w)

-- `payload_length -= n`
unfoldable pub less_payload : ℕ → XPduHdr → XPduHdr
less_payload n ph = record ph { payload_length = (ph.payload_length + u32_mod - n) % u32_mod }

-- The optional context, into an array of 41 bytes.
unfoldable pub context_parse : XPduHdr → Parser (List ℕ × XPduHdr)
unfolding has_context int32 take_bytes skip less_payload peek
context_parse ph =
    if has_context ph.flags
    then (do
      n ← int32 ph.flags
      check (leb ((n + 1) % u32_mod) 41) err_ctx_len
      context ← peek (take_bytes n)
      skip (uint_sizeof n)
      pure (context, less_payload (4 + uint_sizeof n) ph))
    else pure ([], ph)

-- The additional data of three types of PDU.
unfoldable pub additional_parse : XPduHdr → Parser (Additional × XPduHdr)
unfolding int32 int16 read_byte skip less_payload peek
additional_parse ph =
    if ph.type == 2
    then (do reason ← peek read_byte; skip 4; pure (close reason, less_payload 4 ph))
    else (if ph.type == 7
        then (do
          non_rep ← int16 ph.flags
          max_rep ← int16 ph.flags
          pure (getbulk non_rep max_rep, less_payload 4 ph))
        else (if ph.type == 18
            then (do
              sys_up_time ← int32 ph.flags
              error ← int16 ph.flags
              index ← int16 ph.flags
              pure (response sys_up_time error index, less_payload 8 ph))
            else pure (nothing, ph)))

-- The 20 bytes of the header.
unfoldable pub fields_parse : Parser XPduHdr
unfolding read_byte int32
fields_parse = do
  version ← read_byte
  type ← read_byte
  flags ← read_byte
  reserved ← read_byte
  session_id ← int32 flags
  transaction_id ← int32 flags
  packet_id ← int32 flags
  payload_length ← int32 flags
  pure record {
    version = version;
    type = type;
    flags = flags;
    session_id = session_id;
    transaction_id = transaction_id;
    packet_id = packet_id;
    payload_length = payload_length;
  }

unfoldable pub pdu_hdr_parse : Parser XHead
unfolding fields_parse context_parse additional_parse
pdu_hdr_parse = do
  ph ← fields_parse
  (context, ph1) ← context_parse ph
  (u, ph2) ← additional_parse ph1
  pure record { pdu_hdr = ph2; context = context; u = u }

-- `var_bind_alloc`; the type is cut to a byte for the decoder of values.
unfoldable pub var_bind_alloc : ℕ → Parser XVarIn
unfolding int16 skip peek oid_dec_try oid_dec agentx_value_dec_try agentx_value_dec x_kind
var_bind_alloc flags = do
  type ← int16 flags
  skip 2
  oid_len ← peek oid_dec_try
  check (leb (oid_len / 4) 64) err_vb_oid_len
  ids ← oid_dec
  val_len ← peek (agentx_value_dec_try (x_kind (type % 256)))
  check (leb val_len 1024) err_vb_value_len
  value ← agentx_value_dec (x_kind (type % 256))
  pure record { oid = ids; val_type = type; value = value }

-- One of the two object identifiers of a range, and its byte `include`.
unfoldable pub bound_parse : Parser (List ℕ × ℕ)
unfolding skip peek oid_dec_try oid_dec read_byte
bound_parse = do
  oid_len ← peek oid_dec_try
  check (leb (oid_len / 4) 64) err_sr_oid_len
  include ← peek (skip 2 >> read_byte)
  ids ← oid_dec
  pure (ids, include)

unfoldable pub search_range_alloc : Parser XSearchRange
unfolding bound_parse
search_range_alloc = do
  (start, start_include) ← bound_parse
  (end_oid, end_include) ← bound_parse
  pure record {
    start = start;
    end_oid = end_oid;
    start_include = start_include;
    end_include = end_include;
  }

-- The loops of `var_bind_parse` and `search_range_parse`, on fuel: while the payload is not used up.
unfoldable pub parse_loop : {A : Type 0} → ℕ → Parser A → ℕ → Parser (List A)
parse_loop zero alloc payload bs = out_of_fuel
parse_loop (suc fuel) alloc payload bs =
    let round : Parsed (List _) = bind (alloc bs) λ a rest.
      bind (parse_loop fuel alloc ((payload + u32_mod - (length bs - length rest)) % u32_mod) rest)
        λ later end_bs. ok (a ∷ later) end_bs in
    if payload == 0 then ok [] bs else round

-- The contents of a PDU behind its header.
pub data Contents : Type 0 where
  no_contents : Contents
  ranges : List XSearchRange → Contents
  bindings : List XVarIn → Contents

unfoldable pub contents_parse : XHead → Parser Contents
unfolding parse_loop search_range_alloc var_bind_alloc
contents_parse head bs =
    let ph = head.pdu_hdr in
    if ph.type == 5 || ph.type == 6 || ph.type == 7
    then bind (parse_loop (length bs + 1) search_range_alloc ph.payload_length bs)
        (λ rs. pure (ranges rs))
    else (if ph.type == 8 || ph.type == 18
        then bind (parse_loop (length bs + 1) (var_bind_alloc ph.flags) ph.payload_length bs)
            (λ vbs. pure (bindings vbs))
        else ok no_contents bs)

unfoldable pub agentx_decode : Parser (XHead × Contents)
unfolding pdu_hdr_parse contents_parse
agentx_decode = do head ← pdu_hdr_parse; contents ← contents_parse head; pure (head, contents)
