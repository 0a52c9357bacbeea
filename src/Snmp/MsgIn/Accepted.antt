-- ===== src/Snmp/MsgIn/Accepted.antt =====
-- The decoder of core/snmp_msg_in.c on any bytes: it ends, and what it accepts fits the arrays of
-- `struct snmp_datagram` and `struct var_bind`.
use smartsnmp.Base.{subst}
use smartsnmp.Base.{ℕ, ◌+◌, ◌%◌, ◌≡◌, ◌≢◌, ◌≤◌, ◌<◌, List, length, arith, ◌==◌, All}
use smartsnmp.Base.Bytes.{u32_mod}
use smartsnmp.Snmp.Packet.{Datagram}
use smartsnmp.Snmp.Packet.{
  err_pdu_type, err_pdu_len, err_version, err_context_name, err_context_name_len,
}
use smartsnmp.Snmp.Parser.{ok, out_of_fuel}
use smartsnmp.Snmp.Parser.Sound.{
  Sound, done, Sound-imp, bind-Sound, expect-Sound, check-Sound, read_byte-Sound, dec_length-Sound,
  dec_length_size-Sound, int_field-Sound, str_field-Sound,
}
use smartsnmp.Snmp.MsgIn.{snmp_decode, snmpd_recv}
use smartsnmp.Snmp.MsgIn.Bindings.{VarBindFits, var_bind_parse-Sound, pdu_hdr_parse-Sound}
use smartsnmp.Snmp.MsgIn.Headers.{V3Accepted, v3_part-Sound}

pub record DatagramFits (sdg : Datagram) : Type 0 where
  pub v3 : V3Accepted sdg.version.val sdg.v3
  pub context_name : length sdg.context_name < 41
  pub vb_in_list : All VarBindFits sdg.vb_in_list

snmp_decode-Sound :
    (bs : List ℕ) (n : ℕ) → length bs ≤ n → n < 0x8000_0000 → Sound n DatagramFits (snmp_decode bs)
unfolding snmp_decode
snmp_decode-Sound bs n h lt = bind-Sound (read_byte-Sound bs n (omega arith)) λ tag bs1 l1 p1.
    bind-Sound (dec_length-Sound bs1 n l1) λ data_len bs2 l2 p2.
      bind-Sound (int_field-Sound err_version bs2 n l2) λ version bs3 l3 p3.
        bind-Sound (v3_part-Sound version.val bs3 n l3 lt) λ v3 bs4 l4 p4.
          bind-Sound (str_field-Sound err_context_name err_context_name_len 41 bs4 n l4 lt)
            λ name bs5 l5 p5. bind-Sound (pdu_hdr_parse-Sound bs5 n l5) λ ph bs6 l6 p6.
              bind-Sound (var_bind_parse-Sound bs6 n l6) λ vbs bs7 l7 p7.
                done
                  (record {
                    version = version;
                    v3 = v3;
                    context_name = name;
                    pdu_hdr = ph;
                    vb_in_list = vbs;
                  })
                  bs7 l7 record { v3 = p4; context_name = p5; vb_in_list = p7 }

snmpd_recv-Sound :
    (buffer : List ℕ)
    → length buffer < 0x8000_0000
    → Sound (length buffer) DatagramFits (snmpd_recv buffer)
unfolding snmpd_recv
snmpd_recv-Sound buffer h =
    let n = length buffer in
    bind-Sound
      (bind-Sound (expect-Sound 0x30 err_pdu_type buffer n (omega arith)) λ _ bs1 l1 p1.
        bind-Sound (dec_length_size-Sound bs1 n l1) λ (data_len, len_len) bs2 l2 p2.
          Sound-imp {Q = λ _. Unit {0}}
            (check-Sound ((1 + len_len + data_len) % u32_mod == n) err_pdu_len bs2 n l2) λ _ _. tt)
      λ _ _ _ _. snmp_decode-Sound buffer n (omega arith) h

-- Whatever the bytes of a buffer below 2 GB, the decoder ends: the fuel of the loop over the bindings is
-- enough.
pub snmpd_recv_ends :
    (buffer : List ℕ) → length buffer < 0x8000_0000 → snmpd_recv buffer ≢ out_of_fuel
snmpd_recv_ends buffer h e =
    go (subst (Sound (length buffer) DatagramFits) e (snmpd_recv-Sound buffer h))
  where
    go : Sound (length buffer) DatagramFits out_of_fuel → ⊥
    go s = elim s [ ]

-- A datagram that `snmpd_recv` accepts from a buffer below 2 GB has the fields of version 3 exactly for version 3,
-- and every string but `msg_flags`, every object identifier and every value is within the array that holds it.
pub snmpd_recv-DatagramFits :
    (buffer rest : List ℕ) (sdg : Datagram)
    → length buffer < 0x8000_0000
    → snmpd_recv buffer ≡ ok sdg rest
    → DatagramFits sdg
snmpd_recv-DatagramFits buffer rest sdg h e =
    go (subst (Sound (length buffer) DatagramFits) e (snmpd_recv-Sound buffer h))
  where
    go : Sound (length buffer) DatagramFits (ok sdg rest) → DatagramFits sdg
    go (done sdg rest l p) = p
