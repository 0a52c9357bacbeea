-- ===== src/Snmp/MsgProc/Dispatch.antt =====
-- `snmp_request_dispatch` of core/snmp_msg_in.c: the request by its PDU type, over the handlers of
-- core/snmp_msg_proc.c.
use smartsnmp.Base.{ℕ, [], ◌∷◌, Option, if◌then◌else◌, ◌==◌, List}
use smartsnmp.Snmp.Packet.{VarBind, Datagram}
use smartsnmp.Snmp.MsgOut.{Sent}
use smartsnmp.Snmp.MsgProc.{Agent}
use smartsnmp.Snmp.MsgProc.Respond.{snmp_get, snmp_set}
use smartsnmp.Snmp.MsgProc.GetNext.{snmp_getnext, snmp_bulkget}

-- What becomes of a request: nothing is sent, a response is, or the handler does not return one.
pub data Dispatched : Type 0 where
  ignored : Dispatched
  served : Option Sent → Dispatched

-- MIB_REPO for a request without bindings, MIB_RESP otherwise.
unfoldable pub reply_type : List VarBind → ℕ
reply_type [] = 0xa8
reply_type (vb ∷ vbs) = 0xa2

unfoldable pub as_reply : Datagram → Datagram
unfolding reply_type
as_reply sdg = record sdg { pdu_hdr = record sdg.pdu_hdr { pdu_type = reply_type sdg.vb_in_list } }

unfoldable pub snmp_request_dispatch : Agent → Datagram → Dispatched
unfolding as_reply snmp_get snmp_getnext snmp_set snmp_bulkget
snmp_request_dispatch agent sdg =
    if sdg.pdu_hdr.pdu_type == 0xa0
    then served (snmp_get agent (as_reply sdg))
    else (if sdg.pdu_hdr.pdu_type == 0xa1
        then served (snmp_getnext agent (as_reply sdg))
        else (if sdg.pdu_hdr.pdu_type == 0xa3
            then served (snmp_set agent (as_reply sdg))
            else (if sdg.pdu_hdr.pdu_type == 0xa5
                then served (snmp_bulkget agent (as_reply sdg))
                else ignored)))
