-- ===== src/Snmp/MsgIn/Bindings.antt =====
-- The variable bindings that core/snmp_msg_in.c decodes from any bytes.
use smartsnmp.Snmp.MsgIn.{expect}
use smartsnmp.Snmp.MsgIn.{err_vb_list_seq}
use smartsnmp.Ber.Value.{dec_try_kind}
use smartsnmp.Snmp.MsgIn.{err_pdu_erridx}
use smartsnmp.Base.{inr}
use smartsnmp.Base.{inl}
use smartsnmp.Snmp.MsgIn.{err_pdu_errstat}
use smartsnmp.Ber.Value.{dec_kind}
use smartsnmp.Ber.Value.{kind_of}
use smartsnmp.Snmp.MsgIn.{err_vb_seq}
use smartsnmp.Snmp.MsgIn.{err_pdu_reqid}
use smartsnmp.Base.{Bool-cases}
use smartsnmp.Snmp.MsgIn.{err_vb_value_len}
use smartsnmp.Snmp.MsgIn.{err_vb_oid_len}
use smartsnmp.Snmp.MsgIn.{err_vb_oid_type}
use smartsnmp.Base.{ℕ, zero, suc, ◌+◌, ◌%◌, ◌≤◌, ◌<◌, List, [], ◌∷◌, length, arith, leb, ◌==◌, All}
use smartsnmp.Base.Int.{sub32}
use smartsnmp.Base.Bytes.{u32_mod}
use smartsnmp.Ber.Value.{ber_value_dec, ber_value_dec_try}
use smartsnmp.Ber.ObjectId.RoundTrip.{length-ber_oid_dec}
use smartsnmp.Snmp.Packet.{VarBind}
use smartsnmp.Snmp.Parser.{expect, Parsed, ok, err, fault, out_of_fuel, Parser, bind, peek}
use smartsnmp.Snmp.Parser.Sound.{
  Sound, done, failed, faulted, bind-Sound, expect-Sound, check-Sound, read_byte-Sound,
  dec_length-Sound, dec_length_size-Sound, take_bytes-Sound, skip-Sound, int_field-Sound,
}
use smartsnmp.Snmp.MsgIn.{
  oid_value, var_bind_alloc, pdu_hdr_parse, var_bind_round, var_binds, var_bind_parse,
}

-- `oid[MIB_OID_MAX_LEN]`, and at most 1024 bytes of value.
pub record VarBindFits (vb : VarBind) : Type 0 where
  pub oid : length vb.oid ≤ 64
  pub value : length vb.value ≤ 1024

oid_value-length :
    (bs : List ℕ) → length (oid_value (ber_value_dec 0x06 bs)) ≤ ber_value_dec_try 0x06 bs
unfolding oid_value ber_value_dec ber_value_dec_try kind_of dec_kind dec_try_kind
oid_value-length [] = omega arith
oid_value-length (b ∷ bs) = omega (arith, length-ber_oid_dec b bs)

var_bind_alloc-Sound :
    (bs : List ℕ) (n : ℕ) → length bs ≤ n → Sound n VarBindFits (var_bind_alloc bs)
unfolding var_bind_alloc
var_bind_alloc-Sound bs n h =
    bind-Sound (expect-Sound 0x06 err_vb_oid_type bs n (omega arith)) λ _ bs1 l1 p1.
      bind-Sound (dec_length-Sound bs1 n l1) λ oid_len bs2 l2 p2.
        bind-Sound (take_bytes-Sound oid_len bs2 n l2) λ oid_bytes bs3 l3 p3.
          bind-Sound
            (check-Sound (leb (ber_value_dec_try 0x06 oid_bytes) 64) err_vb_oid_len bs3 n l3)
            λ _ bs4 l4 p4. bind-Sound (read_byte-Sound bs4 n (omega arith)) λ val_type bs5 l5 p5.
              bind-Sound (dec_length-Sound bs5 n l5) λ val_len bs6 l6 p6.
                bind-Sound (check-Sound (leb val_len 1024) err_vb_value_len bs6 n l6) λ _ bs7 l7 p7.
                  bind-Sound (take_bytes-Sound val_len bs7 n l7) λ value bs8 l8 p8.
                    done
                      (record {
                        oid = oid_value (ber_value_dec 0x06 oid_bytes);
                        value_type = val_type;
                        value = value;
                      })
                      bs8 l8
                      record {
                        oid = ground (arith, oid_value-length oid_bytes, p4);
                        value = ground (arith, p8.0, p7);
                      }

pub pdu_hdr_parse-Sound :
    (bs : List ℕ) (n : ℕ) → length bs ≤ n → Sound n (λ _. Unit {0}) (pdu_hdr_parse bs)
unfolding pdu_hdr_parse
pdu_hdr_parse-Sound bs n h = bind-Sound (read_byte-Sound bs n (omega arith)) λ t bs1 l1 p1.
    bind-Sound (dec_length-Sound bs1 n l1) λ k bs2 l2 p2.
      bind-Sound (int_field-Sound err_pdu_reqid bs2 n l2) λ req_id bs3 l3 p3.
        bind-Sound (int_field-Sound err_pdu_errstat bs3 n l3) λ err_stat bs4 l4 p4.
          bind-Sound (int_field-Sound err_pdu_erridx bs4 n l4) λ err_idx bs5 l5 p5.
            done (record { pdu_type = t; req_id = req_id; err_stat = err_stat; err_idx = err_idx })
              bs5 l5 tt

peek-Sound :
    {A : Type 0} {P : A → Type 0} (p : Parser A) (bs : List ℕ) (n : ℕ)
    → length bs ≤ n
    → Sound n P (p bs)
    → Sound n P (peek p bs)
unfolding peek
peek-Sound {A} {P} p bs n h s = go s
  where
    go :
        {r : Parsed A}
        → Sound n P r
        → Sound n P (elim r [
          | ok a rest ↦ ok a bs
          | err e ↦ err e
          | fault ↦ fault
          | out_of_fuel ↦ out_of_fuel
        ])
    go (done a rest l q) = done a bs h q
    go (failed e) = failed e
    go faulted = faulted

-- A round takes at least one byte.
var_bind_round-Sound :
    (bs : List ℕ) (n : ℕ)
    → length bs ≤ suc n
    → Sound n (λ (vb, used). VarBindFits vb) (var_bind_round bs)
unfolding var_bind_round
var_bind_round-Sound bs n h = bind-Sound (expect-Sound 0x30 err_vb_seq bs n h) λ _ bs1 l1 p1.
    bind-Sound (dec_length_size-Sound bs1 n l1) λ (vb_len, len_len) bs2 l2 p2.
      bind-Sound (peek-Sound var_bind_alloc bs2 n l2 (var_bind_alloc-Sound bs2 n l2))
        λ vb bs3 l3 p3.
          bind-Sound (skip-Sound vb_len bs3 n l3)
            λ _ bs4 l4 p4. done (vb, (1 + len_len + vb_len) % u32_mod) bs4 l4 p3

var_binds-Sound :
    (fuel len : ℕ) (bs : List ℕ) (n : ℕ)
    → length bs < fuel
    → length bs ≤ n
    → Sound n (All VarBindFits) (var_binds fuel len bs)
unfolding var_binds var_bind_round expect
var_binds-Sound zero len bs n f h = elim f [ ]
var_binds-Sound (suc fuel) len bs n f h = elim (Bool-cases (len == 0)) [
  | inl e ↦ rw (var_binds, e) (done [] bs h tt)
  | inr e ↦ rw (var_binds, e) (more bs f h (λ len bs' l. var_binds-Sound fuel len bs' n l))
]
  where
    more :
        (bs : List ℕ)
        → length bs < suc fuel
        → length bs ≤ n
        → ((len : ℕ) (bs' : List ℕ)
            → length bs' < fuel
            → length bs' ≤ n
            → Sound n (All VarBindFits) (var_binds fuel len bs'))
        → Sound n (All VarBindFits) (
            bind (var_bind_round bs) λ (vb, used) rest.
              bind (var_binds fuel (sub32 len used) rest) λ vbs rest'. ok (vb ∷ vbs) rest')
    more [] f h back = faulted
    more (b ∷ bs) f h back =
        bind-Sound (var_bind_round-Sound (b ∷ bs) (length bs) (omega arith)) λ (vb, used) bs1 l1 p1.
          bind-Sound (back (sub32 len used) bs1 (omega arith) (omega arith))
            λ vbs bs2 l2 p2. done (vb ∷ vbs) bs2 l2 (p1, p2)

pub var_bind_parse-Sound :
    (bs : List ℕ) (n : ℕ) → length bs ≤ n → Sound n (All VarBindFits) (var_bind_parse bs)
unfolding var_bind_parse
var_bind_parse-Sound bs n h =
    bind-Sound (expect-Sound 0x30 err_vb_list_seq bs n (omega arith)) λ _ bs1 l1 p1.
      bind-Sound (dec_length-Sound bs1 n l1)
        λ len bs2 l2 p2. var_binds-Sound (length bs2 + 1) len bs2 n (omega arith) l2
