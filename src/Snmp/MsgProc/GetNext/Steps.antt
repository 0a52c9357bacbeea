-- ===== src/Snmp/MsgProc/GetNext/Steps.antt =====
-- What a round of GETNEXT adds to the response, and how many bindings BULKGET answers.
use smartsnmp.Snmp.MsgProc.Respond.{reply_start}
use smartsnmp.Snmp.MsgProc.GetNext.{reply_start}
use smartsnmp.Snmp.MsgProc.GetNext.{bulk_start}
use smartsnmp.Base.{◌+◌, ◌*◌, length-append, zero, suc, sym, arith}
use smartsnmp.Snmp.MsgProc.GetNext.{bulk_loop}
use smartsnmp.Base.{ℕ, ◌≡◌, ◌∙◌, refl, sym, ap, List, [], ◌∷◌, Option, some, length}
use smartsnmp.Snmp.MsgProc.Respond.{get_value}
use smartsnmp.Snmp.Packet.{VarBind, Datagram}
use smartsnmp.Snmp.MsgProc.{Agent}
use smartsnmp.Snmp.MsgProc.Respond.{Answer, read_value, reply_loop}
use smartsnmp.Snmp.MsgProc.Sizes.{Step, bind-some, some-inj, add_vb_out-Step}
use smartsnmp.Snmp.MsgProc.GetNext.{mib_getnext, getnext_round, bulk_pass}

pub getnext_round-Step :
    (agent : Agent) (sdg : Datagram) (vb : VarBind) (r r' : Answer)
    → getnext_round agent sdg vb r ≡ some r'
    → (id : List ℕ) × Step id r r'
unfolding getnext_round
getnext_round-Step agent sdg vb r r' e =
    let (ret0, e0, f0) = bind-some (read_value vb r.ret) _ r' e in
    let (ret, e1, f1) = bind-some (mib_getnext agent sdg vb.oid ret0) _ r' f0 in
    let (value, e2, f2) = bind-some (get_value ret.var.tag ret.var.value) _ r' f1 in
    (ret.id, add_vb_out-Step ret.id ret ret.var.tag value r r' refl f2)

-- A pass is the loop of GETNEXT, and asks for as many bindings next time.
module _ (round : VarBind → Answer → Option Answer) where
  pub bulk_pass-reply_loop :
      (vbs vbs' : List VarBind) (r r' : Answer)
      → bulk_pass round vbs r ≡ some (vbs', r')
      → (reply_loop round vbs r ≡ some r') × (length vbs' ≡ length vbs)
  unfolding bulk_pass reply_loop
  bulk_pass-reply_loop [] vbs' r r' e =
      let q = some-inj _ _ e in
      (
        ap (λ (x : List VarBind × Answer). some x.1) q,
        ap (λ (x : List VarBind × Answer). length x.0) (sym q),
      )
  bulk_pass-reply_loop (vb ∷ vbs) vbs' r r' e =
      let (r1, e1, f) = bind-some (round vb r) _ (vbs', r') e in
      let ((later, last), e2, g) = bind-some (bulk_pass round vbs r1) _ (vbs', r') f in
      let (loop, len) = bulk_pass-reply_loop vbs later r1 last e2 in
      let q = some-inj _ _ g in
      (
        rw (reply_loop, e1) (loop ∙ ap (λ (x : List VarBind × Answer). some x.1) q),
        ap (λ (x : List VarBind × Answer). length x.0) (sym q) ∙ rw len refl,
      )

  module _
      (step : (vb : VarBind) (r r' : Answer)
        → round vb r ≡ some r'
        → (id : List ℕ) × Step id r r') where
    reply_loop-length :
        (vbs : List VarBind) (r r' : Answer)
        → reply_loop round vbs r ≡ some r'
        → length r'.vb_out_list ≡ length r.vb_out_list + length vbs
    unfolding reply_loop
    reply_loop-length [] r r' e =
        ap (λ (x : Answer). length x.vb_out_list) (sym (some-inj r r' e)) ∙ omega arith
    reply_loop-length (vb ∷ vbs) r r' e =
        let (r1, e1, f) = bind-some (round vb r) (reply_loop round vbs) r' e in
        let (id, s) = step vb r r1 e1 in
        let one : length r1.vb_out_list ≡ length r.vb_out_list + 1 =
          ap (λ z. length z) s.list ∙ length-append r.vb_out_list (s.added ∷ []) in
        omega (arith, one, reply_loop-length vbs r1 r' f)

    -- Each of the repetitions adds one binding for each binding of the request.
    pub bulk_loop-length :
        (repeat : ℕ) (vbs : List VarBind) (r r' : Answer)
        → bulk_loop repeat round vbs r ≡ some r'
        → length r'.vb_out_list ≡ length r.vb_out_list + repeat * length vbs
    unfolding bulk_loop
    bulk_loop-length zero vbs r r' e =
        ap (λ (x : Answer). length x.vb_out_list) (sym (some-inj r r' e)) ∙ omega arith
    bulk_loop-length (suc repeat) vbs r r' e =
        let ((vbs', r1), e1, f) = bind-some (bulk_pass round vbs r) _ r' e in
        let (loop, len) = bulk_pass-reply_loop vbs vbs' r r1 e1 in
        let one = reply_loop-length vbs r r1 loop in
        let more = bulk_loop-length repeat vbs' r1 r' f in
        let times : suc repeat * length vbs ≡ repeat * length vbs + length vbs = omega arith in
        let same : repeat * length vbs' ≡ repeat * length vbs = ap (λ z. repeat * z) len in
        omega (arith, one, more, times, same)

-- If the loops of `snmp_bulkget` give an answer, it has as many bindings as the error index of the request says, times
-- the bindings of the request.
pub snmp_bulkget-length :
    (agent : Agent) (sdg : Datagram) (r : Answer)
    → bulk_loop sdg.pdu_hdr.err_idx.val (getnext_round agent sdg) sdg.vb_in_list (bulk_start sdg)
      ≡ some r
    → length r.vb_out_list ≡ sdg.pdu_hdr.err_idx.val * length sdg.vb_in_list
unfolding bulk_start reply_start
snmp_bulkget-length agent sdg r e =
    bulk_loop-length (getnext_round agent sdg) (getnext_round-Step agent sdg)
      sdg.pdu_hdr.err_idx.val sdg.vb_in_list (bulk_start sdg) r e
    ∙ omega arith
