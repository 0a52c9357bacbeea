-- ===== src/Agentx.antt =====
-- AgentX, core/agentx.h: the headers of its PDUs, and numbers in the byte order of a little-endian host.
pub mod Pdu
pub mod Sizes
pub mod Decoder
pub mod MsgIn
pub mod RoundTrip
pub mod Response
pub mod Bindings
pub mod Reply
pub mod Ends
use smartsnmp.Base.{
  ℕ, ◌+◌, ◌-◌, ◌*◌, ◌/◌, ◌%◌, List, [], ◌∷◌, ◌++◌, zero, suc, length, drop, get_or,
}
use smartsnmp.Base.Bytes.{byte}

-- `struct x_pdu_hdr`; `reserved` is not used.
pub record XPduHdr : Type 0 where
  pub version : ℕ
  pub type : ℕ
  pub flags : ℕ
  pub session_id : ℕ
  pub transaction_id : ℕ
  pub packet_id : ℕ
  pub payload_length : ℕ

-- `struct x_var_bind` for a response: the value as the bytes of `agentx_value_enc`, `val_len` of them.
pub record XVarBind : Type 0 where
  pub oid : List ℕ
  pub val_type : ℕ
  pub value : List ℕ

-- A `uint32_t` and a `uint16_t` stored through a pointer.
abbrev pub word32 : ℕ → List ℕ
word32 w = byte w 0 ∷ byte w 1 ∷ byte w 2 ∷ byte w 3 ∷ []

abbrev pub word16 : ℕ → List ℕ
word16 w = byte w 0 ∷ byte w 1 ∷ []

-- `uint_sizeof` of core/util.h: the next multiple of 4.
abbrev pub uint_sizeof : ℕ → ℕ
uint_sizeof n = (n + 3) / 4 * 4

abbrev pub zeros : ℕ → List ℕ
zeros zero = []
zeros (suc n) = 0 ∷ zeros n

abbrev pub words : List ℕ → List ℕ
words [] = []
words (x ∷ xs) = word32 x ++ words xs

-- A PDU header as it lies in memory.
unfoldable pub x_pdu_hdr : XPduHdr → List ℕ
x_pdu_hdr ph =
    (ph.version % 256 ∷ ph.type % 256 ∷ ph.flags % 256 ∷ 0 ∷ [])
    ++ (word32 ph.session_id
        ++ (word32 ph.transaction_id ++ (word32 ph.packet_id ++ word32 ph.payload_length)))

-- `struct x_objid_t` as the builders fill it: the first five sub-identifiers but the fifth, the prefix, are
-- left out.
unfoldable pub x_objid : List ℕ → List ℕ
x_objid oid = ((length oid - 5) % 256 ∷ get_or oid 4 0 % 256 ∷ 0 ∷ 0 ∷ []) ++ words (drop 5 oid)

-- `struct x_octstr_t`: a length, a string, and the zeros that pad it in the cleared buffer.
unfoldable pub x_octstr : ℕ → List ℕ → List ℕ
x_octstr len str = word32 len ++ (str ++ zeros (uint_sizeof (length str) - length str))
