-- ===== src/Snmp/MsgProc/Respond.antt =====
-- The loops over the bindings of a request, `snmp_get` and `snmp_set` of core/snmp_msg_proc.c.
use smartsnmp.Base.Int.{pattern32}
use smartsnmp.Snmp.MsgOut.{snmp_response}
use smartsnmp.Ber.Value.{fits_union, word}
use smartsnmp.Snmp.MsgProc.{not_writable}
use smartsnmp.Snmp.MsgProc.{mib_set}
use smartsnmp.Snmp.MsgOut.{Sent}
use smartsnmp.Snmp.MsgProc.{mib_get}
use smartsnmp.Snmp.MsgProc.{Agent}
use smartsnmp.Snmp.MsgProc.{mib_tag_valid}
use smartsnmp.Snmp.MsgProc.{Datagram}
use smartsnmp.Base.{ℕ, ◌+◌, ◌%◌, List, [], ◌∷◌, ◌++◌, Option, none, some, ◌&&◌, not}
use smartsnmp.Base.{if◌then◌else◌, ◌==◌, leb, length, take}
use smartsnmp.Base.Int.{pos, is_zero}
use smartsnmp.Base.Bytes.{u32_mod}
use smartsnmp.Ber.ObjectId.{ber_oid_enc_try}
use smartsnmp.Ber.Value.{
  Value, oid, octets, Kind, oid_kind, octet_kind, kind_of, Decoded, nothing, decoded, undefined,
  ber_value_dec, ber_value_enc, ber_value_enc_try,
}
use smartsnmp.Snmp.Packet.{VarBind}
use smartsnmp.Snmp.MsgOut.{VbOut, tlv_len}
use smartsnmp.Snmp.MsgProc.{RetOid}

-- What 0 elements are, in a union that holds `old`.
unfoldable pub no_elements : Kind → Value → Value
no_elements oid_kind old = oid []
no_elements octet_kind old = octets []
no_elements kind old = old

unfoldable pub of_decoded : ℕ → Value → Decoded → Option Value
of_decoded tag old nothing = some (no_elements (kind_of tag) old)
of_decoded tag old (decoded v) = if fits_union v then some v else none
of_decoded tag old undefined = none

-- `tag(&ret_oid.var) = vb_in->value_type;` and the decoding of the value.
unfoldable pub read_value : VarBind → RetOid → Option RetOid
read_value vb_in ret =
    elim (of_decoded vb_in.value_type ret.var.value (ber_value_dec vb_in.value_type vb_in.value)) [
      | none ↦ none
      | some v ↦ some record {
        id = ret.id;
        err_stat = ret.err_stat;
        var = record { tag = vb_in.value_type; value = v };
      }
    ]

-- `ber_value_enc` into the `size` bytes that were allocated; more are written behind them.
unfoldable pub enc_within : ℕ → Option (List ℕ) → Option (List ℕ)
enc_within size none = none
enc_within size (some bytes) = if leb (length bytes) size then some bytes else none

-- The value of a GET: `ber_value_enc_try` gives the bytes that are allocated for it.
unfoldable pub get_value : ℕ → Value → Option (List ℕ)
unfolding enc_within
get_value tag v = elim (ber_value_enc_try tag v) [
  | none ↦ none
  | some val_len ↦ enc_within val_len (ber_value_enc tag v)
]

-- The value of a SET is encoded with its number of bytes in place of its number of elements.
unfoldable pub set_value : ℕ → Value → Option (List ℕ)
unfolding enc_within get_value
set_value tag (oid ids) = elim (ber_value_enc_try tag (oid ids)) [
  | none ↦ none
  | some n ↦
      if leb n (length ids) then enc_within n (ber_value_enc tag (oid (take n ids))) else none
]
set_value tag v = get_value tag v

-- The state of the loop: `ret_oid`, the number of bindings seen, the error fields of the header, the
-- length of the list, and the bindings in order.
pub record Answer : Type 0 where
  pub ret : RetOid
  pub vb_in_cnt : ℕ
  pub err_stat : ℕ
  pub err_idx : ℕ
  pub vb_list_len : ℕ
  pub vb_out_list : List VbOut

-- The first error is marked.
unfoldable pub mark_error : RetOid → Answer → Answer
mark_error ret r =
    if not (is_zero ret.err_stat) && (r.err_stat == 0)
    then record r { err_stat = pattern32 ret.err_stat; err_idx = r.vb_in_cnt }
    else r

-- The lengths of the binding, and its place at the end of the list.
unfoldable pub add_vb_out : RetOid → ℕ → List ℕ → Answer → Option Answer
unfolding mark_error
add_vb_out ret value_type value r = elim (ber_oid_enc_try ret.id) [
  | none ↦ none
  | some oid_len ↦
      let vb_len = (tlv_len oid_len + tlv_len (length value)) % u32_mod in
      some record {
        ret = ret;
        vb_in_cnt = r.vb_in_cnt;
        err_stat = (mark_error ret r).err_stat;
        err_idx = (mark_error ret r).err_idx;
        vb_list_len = (r.vb_list_len + tlv_len vb_len) % u32_mod;
        vb_out_list =
            r.vb_out_list
            ++ (record { oid = ret.id; vb_len = vb_len; value_type = value_type; value = value }
                ∷ []);
      }
]

-- One round of `snmp_get`.
unfoldable pub get_round : Agent → Datagram → VarBind → Answer → Option Answer
get_round agent sdg vb_in r = elim (read_value vb_in r.ret) [
  | none ↦ none
  | some ret0 ↦ elim (mib_get agent sdg vb_in ret0) [
    | none ↦ none
    | some ret ↦ elim (get_value ret.var.tag ret.var.value) [
      | none ↦ none
      | some value ↦
          add_vb_out ret ret.var.tag value (record r { vb_in_cnt = (r.vb_in_cnt + 1) % u32_mod })
    ]
  ]
]

-- A tag without a value becomes an error of SET.
unfoldable pub set_status : RetOid → RetOid
set_status ret =
    if is_zero ret.err_stat && not (mib_tag_valid ret.var.tag)
    then record ret { err_stat = not_writable }
    else ret

-- One round of `snmp_set`.
unfoldable pub set_round : Agent → Datagram → VarBind → Answer → Option Answer
set_round agent sdg vb_in r = elim (read_value vb_in r.ret) [
  | none ↦ none
  | some ret0 ↦ elim (mib_set agent sdg vb_in ret0) [
    | none ↦ none
    | some ret ↦ elim (set_value ret.var.tag ret.var.value) [
      | none ↦ none
      | some value ↦
          add_vb_out (set_status ret) vb_in.value_type value
            (record r { vb_in_cnt = (r.vb_in_cnt + 1) % u32_mod })
    ]
  ]
]

-- The loop over the bindings.
unfoldable pub reply_loop :
    (VarBind → Answer → Option Answer) → List VarBind → Answer → Option Answer
reply_loop round [] r = some r
reply_loop round (vb ∷ vbs) r = elim (round vb r) [
  | none ↦ none
  | some r' ↦ reply_loop round vbs r'
]

-- The decoder leaves 0 in `vb_list_len`.
unfoldable pub reply_start : Datagram → Answer
reply_start sdg = record {
  ret = record { id = []; err_stat = pos 0; var = record { tag = 0; value = word 0 } };
  vb_in_cnt = 0;
  err_stat = sdg.pdu_hdr.err_stat.val;
  err_idx = sdg.pdu_hdr.err_idx.val;
  vb_list_len = 0;
  vb_out_list = [];
}

-- `sdg` after the loop; the lengths of the error fields stay those of the request.
unfoldable pub with_errors : Answer → Datagram → Datagram
with_errors r sdg = record sdg {
  pdu_hdr = record sdg.pdu_hdr {
    err_stat = record sdg.pdu_hdr.err_stat { val = r.err_stat };
    err_idx = record sdg.pdu_hdr.err_idx { val = r.err_idx };
  };
}

unfoldable pub respond : (VarBind → Answer → Option Answer) → Datagram → Option Sent
respond round sdg = elim (reply_loop round sdg.vb_in_list (reply_start sdg)) [
  | none ↦ none
  | some r ↦ snmp_response (with_errors r sdg) r.vb_list_len r.vb_out_list
]

unfoldable pub snmp_get : Agent → Datagram → Option Sent
snmp_get agent sdg = respond (get_round agent sdg) sdg

unfoldable pub snmp_set : Agent → Datagram → Option Sent
snmp_set agent sdg = respond (set_round agent sdg) sdg
