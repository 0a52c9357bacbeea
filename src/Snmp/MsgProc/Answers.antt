-- ===== src/Snmp/MsgProc/Answers.antt =====
-- The answers to GET and SET, from the request of core/snmp_msg_proc.c to the bytes that are sent.
use smartsnmp.Snmp.MsgProc.Respond.{snmp_set}
use smartsnmp.Snmp.MsgProc.Respond.{snmp_get}
use smartsnmp.Base.{◌∙◌}
use mathlib.Core.List.{map}
use smartsnmp.Base.{◌≡◌, ◌<◌, refl, [], Option, some, length, arith, All}
use smartsnmp.Base.Bytes.{u32_mod}
use smartsnmp.Snmp.Packet.{VarBind, Datagram}
use smartsnmp.Snmp.Parser.{ok}
use smartsnmp.Snmp.MsgIn.{snmpd_recv}
use smartsnmp.Snmp.MsgOut.{VbOut, Sent}
use smartsnmp.Snmp.RoundTrip.VarBinds.{IsReply, list_len}
use smartsnmp.Snmp.RoundTrip.Response.{IsAnswered, answered, snmpd_recv-snmp_response}
use smartsnmp.Snmp.MsgProc.{Agent}
use smartsnmp.Snmp.MsgProc.Respond.{
  Answer, get_round, set_round, reply_loop, reply_start, with_errors, respond,
}
use smartsnmp.Snmp.MsgProc.GetNext.{getnext_round}
use smartsnmp.Snmp.MsgProc.GetNext.Steps.{getnext_round-Step}
use smartsnmp.Base.{ℕ, List}
use smartsnmp.Snmp.MsgProc.Sizes.{Step, get_round-Step, set_round-Step, Answers, reply_loop-Answers}
use smartsnmp.Snmp.MsgProc.Errors.{statuses, first_error, IsInt, Reports, reply_loop-first_error}

-- The two requests: the round of the loop, and what is sent.
pub data Served (agent : Agent) (sdg : Datagram)
    : (VarBind → Answer → Option Answer) → Option Sent → Type 0 where
  served_get : Served agent sdg (get_round agent sdg) (snmp_get agent sdg)
  served_set : Served agent sdg (set_round agent sdg) (snmp_set agent sdg)

Served-Step :
    {agent : Agent} {sdg : Datagram} {round : VarBind → Answer → Option Answer} {sent : Option Sent}
    → Served agent sdg round sent
    → (vb : VarBind) (r r' : Answer) → round vb r ≡ some r'
    → Step vb.oid r r'
Served-Step {agent} {sdg} served_get vb r r' h = get_round-Step agent sdg vb r r' h
Served-Step {agent} {sdg} served_set vb r r' h = set_round-Step agent sdg vb r r' h

Served-respond :
    {agent : Agent} {sdg : Datagram} {round : VarBind → Answer → Option Answer} {sent : Option Sent}
    → Served agent sdg round sent
    → sent ≡ respond round sdg
unfolding snmp_get snmp_set
Served-respond served_get = refl
Served-respond served_set = refl

-- The round of a request, GETNEXT among them.
pub data Round (agent : Agent) (sdg : Datagram) : (VarBind → Answer → Option Answer) → Type 0 where
  round_get : Round agent sdg (get_round agent sdg)
  round_getnext : Round agent sdg (getnext_round agent sdg)
  round_set : Round agent sdg (set_round agent sdg)

Round-Step :
    {agent : Agent} {sdg : Datagram} {round : VarBind → Answer → Option Answer}
    → Round agent sdg round
    → (vb : VarBind) (r r' : Answer) → round vb r ≡ some r'
    → (id : List ℕ) × Step id r r'
Round-Step {agent} {sdg} round_get vb r r' h = (vb.oid, get_round-Step agent sdg vb r r' h)
Round-Step {agent} {sdg} round_getnext vb r r' h = getnext_round-Step agent sdg vb r r' h
Round-Step {agent} {sdg} round_set vb r r' h = (vb.oid, set_round-Step agent sdg vb r r' h)

-- GET, GETNEXT and SET: if the request has no error, less than 2^32 bindings, and the handlers' errors are C
-- integers, and the loop over the bindings gives an answer, it has the first error among its bindings and the number of that binding, or the
-- fields of the request if there is none.
pub loop-first_error :
    (agent : Agent) (sdg : Datagram) (round : VarBind → Answer → Option Answer)
    → Round agent sdg round
    → (r : Answer) → reply_loop round sdg.vb_in_list (reply_start sdg) ≡ some r
    → sdg.pdu_hdr.err_stat.val ≡ 0
    → length sdg.vb_in_list < u32_mod
    → All IsInt (statuses round sdg.vb_in_list (reply_start sdg))
    → Reports (first_error (statuses round sdg.vb_in_list (reply_start sdg))) (reply_start sdg) r
loop-first_error agent sdg round kind r looped z lt ints =
    reply_loop-first_error round (Round-Step kind) sdg.vb_in_list (reply_start sdg) r looped
      (unfold reply_start in rw z refl) (unfold reply_start in omega arith) ints

module _ (agent : Agent) (sdg : Datagram) (round : VarBind → Answer → Option Answer)
    (result : Option Sent) (served : Served agent sdg round result) (r : Answer)
    (looped : reply_loop round sdg.vb_in_list (reply_start sdg) ≡ some r) where
  start-Answers : Answers [] (reply_start sdg)
  unfolding reply_start list_len
  start-Answers = record { oids = refl; sized = tt; len = refl }

  all_answered : Answers (map (λ (vb : VarBind). vb.oid) sdg.vb_in_list) r
  all_answered =
      reply_loop-Answers round (Served-Step served) sdg.vb_in_list [] (reply_start sdg) r looped
        start-Answers

  -- GET and SET: if the loop over the bindings gives bindings that can be read back (`IsReply`), below 2 GB
  -- in all, and the header with its errors can be (`IsAnswered`: integers of the shortest length, a context
  -- name below 41 bytes, the fields of version 3 exactly for version 3 and in their bounds), the response is
  -- sent whole and received as the answer that the loop built, whose identifiers are those of the request
  -- in order.
  pub respond-snmpd_recv :
      All IsReply r.vb_out_list
      → IsAnswered (with_errors r sdg)
      → list_len r.vb_out_list < 0x7fff_0000
      → (sent : Sent) × (result ≡ some sent)
        × (length sent.bytes ≡ sent.size)
        × (snmpd_recv sent.bytes ≡ ok (answered (with_errors r sdg) r.vb_out_list) [])
        × (map (λ (vb : VbOut). vb.oid) r.vb_out_list
            ≡ map (λ (vb : VarBind). vb.oid) sdg.vb_in_list)
  unfolding respond with_errors
  respond-snmpd_recv replies fit lt =
      let (sent, s, l, d) =
        snmpd_recv-snmp_response (with_errors r sdg) r.vb_out_list fit replies lt in
      let len : r.vb_list_len ≡ list_len r.vb_out_list = omega (arith, all_answered.len) in
      (sent, Served-respond served ∙ rw (respond, looped, len) s, l, d, all_answered.oids)
