-- ===== src/Snmp/MsgOut/Behind.antt =====
-- The bytes behind a header that core/snmp_msg_out.c writes.
use smartsnmp.Base.{ℕ, ◌≤◌, List, ◌++◌, Option, none, some, length, length-append, arith}
use smartsnmp.Ber.Integer.{ber_int_enc}
use smartsnmp.Ber.Length.{ber_length_enc}
use smartsnmp.Snmp.Packet.{Field, GlobalData, Security, V3}
use smartsnmp.Snmp.MsgOut.{
  enc_hdr, enc_int, enc_str, global_data_encode, security_parameter_encode, v3_encode,
}

-- What stands behind a header is no longer than all.
pub behind_hdr : (tag n : ℕ) (bs : List ℕ) → length bs ≤ length (enc_hdr tag n bs)
unfolding enc_hdr
behind_hdr tag n bs = omega (arith, length-append {0} (ber_length_enc n) bs)

pub behind_int : (f : Field) (bs : List ℕ) → length bs ≤ length (enc_int f bs)
unfolding enc_int
behind_int f bs = omega (
  arith,
  behind_hdr 0x02 f.len (ber_int_enc f.val ++ bs),
  length-append {0} (ber_int_enc f.val) bs,
)

pub behind_str : (s bs : List ℕ) → length bs ≤ length (enc_str s bs)
unfolding enc_str
behind_str s bs = omega (arith, behind_hdr 0x04 (length s) (s ++ bs), length-append {0} s bs)

pub behind_security :
    (n : ℕ) (s : Security) (bs : List ℕ) → length bs ≤ length (security_parameter_encode n s bs)
unfolding security_parameter_encode
behind_security n s bs = omega (arith, behind_hdr, behind_int, behind_str)

pub behind_global :
    (n : ℕ) (g : GlobalData) (bs : List ℕ) → length bs ≤ length (global_data_encode n g bs)
unfolding global_data_encode
behind_global n g bs = omega (arith, behind_hdr, behind_int, behind_str)

pub behind_v3 :
    (v3 : Option V3) (scope : ℕ) (bs : List ℕ) → length bs ≤ length (v3_encode v3 scope bs)
unfolding v3_encode
behind_v3 none scope bs = omega arith
behind_v3 (some v) scope bs = omega (arith, behind_hdr, behind_str, behind_security, behind_global)
