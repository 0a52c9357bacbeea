-- ===== src/Agentx/Bindings.antt =====
-- The bindings that the builder of core/agentx_msg_out.c writes into a response, read back by the loop of
-- core/agentx_msg_in.c.
use mathlib.Core.List.{append_assoc}
use smartsnmp.Agentx.{XVarBind, word16, x_objid}
use smartsnmp.Base.{
  ◌≤◌, zero, length-append, ◌-◌, ==_apart, subst, some, ◌==◌, ℕ, ◌+◌, ◌*◌, ◌/◌, ◌%◌, ◌≡◌, ◌<◌, ◌∙◌,
  refl, ap, arith, List, ◌∷◌, ◌++◌, Option, length, leb, le→leb, true, false, Bool, suc, [],
}
use smartsnmp.Agentx.Decoder.{
  read16, skip, Parsed, ok, bind, check, XErr, err_vb_oid_len, err_vb_value_len, oid_dec_try,
  agentx_value_dec_try,
}
use smartsnmp.Agentx.MsgIn.{parse_loop, XVarIn, network_order, int16, var_bind_alloc}
use smartsnmp.Agentx.Pdu.{data_bytes, vbs_bytes, vb_size, vb_bytes, vbs_size, x_kind}
use smartsnmp.Agentx.Response.{data_Reads, Stored, Reads, peek-ok, oid_dec_try-x_objid}
use smartsnmp.Agentx.RoundTrip.{IsInternet, oid_dec-x_objid}
use smartsnmp.Agentx.Sizes.{length-vb_bytes}
use smartsnmp.Base.Bytes.{u32_mod, byte}
use smartsnmp.Ber.Value.{Value}
use smartsnmp.Snmp.MsgProc.Sizes.{bind-some, some-inj}

-- A binding that can be sent, and what the decoder is to make of it.
pub record IsReadBack (vb : XVarBind) (v : Option Value) : Type 0 where
  pub type : vb.val_type < 256
  pub oid : IsInternet vb.oid
  pub stored : Stored (x_kind vb.val_type) vb.value v

unfoldable pub read_back : XVarBind → Option Value → XVarIn
read_back vb v = record { oid = vb.oid; val_type = vb.val_type; value = v }

pub int16-word16 :
    (flags w : ℕ) (rest : List ℕ)
    → network_order flags ≡ false
    → w < 65536
    → int16 flags (word16 w ++ rest) ≡ ok w rest
unfolding int16 read16
int16-word16 flags w rest f h =
    let j : byte w 0 + byte w 1 * 256 ≡ w = omega arith in rw (f, j) refl

IsInternet-elements : (ids : List ℕ) → IsInternet ids → leb (length ids * 4 / 4) 64 ≡ true
IsInternet-elements ids h =
    let l : length ids ≡ 5 + length h.subs = ap (λ (z : List ℕ). length z) h.split ∙ omega arith in
    le→leb (length ids * 4 / 4) 64 (omega (arith, l, h.few))

pub then-ok :
    {A B : Type 0} {m : Parsed A} {a : A} {rest : List ℕ} {r : Parsed B} (f : A → List ℕ → Parsed B)
    → m ≡ ok a rest
    → f a rest ≡ r
    → bind m f ≡ r
then-ok f e g = ap (λ z. bind z f) e ∙ g

check-ok : (b : Bool) (e : XErr) (bs : List ℕ) → b ≡ true → check b e bs ≡ ok tt bs
check-ok b e bs t = rw t refl

skip_two : (bs : List ℕ) → skip 2 (0 ∷ 0 ∷ bs) ≡ ok tt bs
unfolding skip
skip_two bs = rw (le→leb 2 (length (0 ∷ 0 ∷ bs)) (omega arith)) refl

-- The contents of a binding, behind its type and two unused bytes.
var_bind_alloc-parts :
    (flags : ℕ) (vb : XVarBind) (v : Option Value) (d rest : List ℕ)
    → network_order flags ≡ false
    → IsReadBack vb v
    → Reads (x_kind (vb.val_type % 256)) d v
    → var_bind_alloc flags (word16 vb.val_type ++ (0 ∷ 0 ∷ (x_objid vb.oid ++ (d ++ rest))))
      ≡ ok (read_back vb v) rest
unfolding var_bind_alloc read_back
var_bind_alloc-parts flags vb v d rest f h r =
    let body = x_objid vb.oid ++ (d ++ rest) in
    let (n, rest', le, e) = r.try rest in
    let get_type = int16-word16 flags vb.val_type (0 ∷ 0 ∷ body) f (omega (arith, h.type)) in
    let unused = skip_two body in
    let oid_len = peek-ok oid_dec_try body _ _ (oid_dec_try-x_objid vb.oid (d ++ rest) h.oid) in
    let oid_fits = check-ok _ err_vb_oid_len body (IsInternet-elements vb.oid h.oid) in
    let get_oid = oid_dec-x_objid vb.oid (d ++ rest) h.oid in
    let val_len =
      peek-ok (agentx_value_dec_try (x_kind (vb.val_type % 256))) (d ++ rest) rest' n e in
    let value_fits = check-ok _ err_vb_value_len (d ++ rest) (le→leb n 1024 le) in
    let get_value = r.dec rest in search then-ok depth 12

unused_bytes :
    (d : List ℕ) (w : ℕ) (o rest : List ℕ)
    → ((word16 w ++ (0 ∷ 0 ∷ [])) ++ (o ++ d)) ++ rest ≡ word16 w ++ (0 ∷ 0 ∷ (o ++ (d ++ rest)))
unused_bytes d w o rest = ap (λ (z : List ℕ). word16 w ++ (0 ∷ 0 ∷ z)) (append_assoc o d rest)

var_bind_alloc-vb_bytes :
    (flags : ℕ) (vb : XVarBind) (v : Option Value) (bytes rest : List ℕ)
    → network_order flags ≡ false
    → IsReadBack vb v
    → vb_bytes vb ≡ some bytes
    → var_bind_alloc flags (bytes ++ rest) ≡ ok (read_back vb v) rest
unfolding vb_bytes
var_bind_alloc-vb_bytes flags vb v bytes rest f h e =
    let (d, e1, g) = bind-some (data_bytes (x_kind vb.val_type) vb.value) _ bytes e in
    let t : vb.val_type ≡ vb.val_type % 256 = omega (arith, h.type) in
    let r : Reads (x_kind (vb.val_type % 256)) d v =
      subst (λ z. Reads (x_kind z) d v) t
        (data_Reads (x_kind vb.val_type) vb.value d v h.stored e1) in
    subst (λ z. var_bind_alloc flags (z ++ rest) ≡ ok (read_back vb v) rest) (some-inj _ bytes g)
      (ap (var_bind_alloc flags) (unused_bytes d vb.val_type (x_objid vb.oid) rest)
        ∙ var_bind_alloc-parts flags vb v d rest f h r)

-- Bindings that can be sent, and what the decoder is to make of them.
pub data AreReadBack : List XVarBind → List XVarIn → Type 0 where
  none_left : AreReadBack [] []
  one_more :
      (vb : XVarBind) (v : Option Value) (vbs : List XVarBind) (ins : List XVarIn)
      → IsReadBack vb v
      → AreReadBack vbs ins
      → AreReadBack (vb ∷ vbs) (read_back vb v ∷ ins)

round_payload :
    (b bs_rest : List ℕ) (n m : ℕ)
    → length b ≡ n
    → n + m < u32_mod
    → (n + m + u32_mod - (length (b ++ bs_rest) - length bs_rest)) % u32_mod ≡ m
round_payload b bs_rest n m e lt = omega (arith, length-append b bs_rest, e)

parse_loop-round :
    {A : Type 0} (alloc : List ℕ → Parsed A) (fuel payload m : ℕ) (bs rest after : List ℕ) (a : A)
    (later : List A)
    → (payload == 0) ≡ false
    → alloc bs ≡ ok a rest
    → (payload + u32_mod - (length bs - length rest)) % u32_mod ≡ m
    → parse_loop fuel alloc m rest ≡ ok later after
    → parse_loop (suc fuel) alloc payload bs ≡ ok (a ∷ later) after
unfolding parse_loop
parse_loop-round alloc fuel payload m bs rest after a later z e q r = rw (z, e, q, r) refl

parse_loop-done :
    {A : Type 0} (fuel : ℕ) (alloc : List ℕ → Parsed A) (bs : List ℕ)
    → parse_loop (suc fuel) alloc 0 bs ≡ ok [] bs
unfolding parse_loop
parse_loop-done fuel alloc bs = refl

vb_size-positive : (vb : XVarBind) (n : ℕ) → 0 < vb_size vb + n
unfolding vb_size
vb_size-positive vb n = omega arith

-- The loop of the decoder, with more rounds than there are bindings, reads the bindings of a response as they were.
pub parse_loop-vbs_bytes :
    (flags fuel : ℕ) (vbs : List XVarBind) (ins : List XVarIn) (bytes rest : List ℕ)
    → network_order flags ≡ false
    → AreReadBack vbs ins
    → length vbs < fuel
    → vbs_size vbs < u32_mod
    → vbs_bytes vbs ≡ some bytes
    → parse_loop fuel (var_bind_alloc flags) (vbs_size vbs) (bytes ++ rest) ≡ ok ins rest
unfolding vbs_size vbs_bytes
parse_loop-vbs_bytes flags zero vbs ins bytes rest f hs more lt e = absurd (omega (arith, more))
parse_loop-vbs_bytes flags (suc fuel) _ _ bytes rest f none_left more lt e =
    subst (λ (z : List ℕ). parse_loop (suc fuel) (var_bind_alloc flags) 0 (z ++ rest) ≡ ok [] rest)
      (some-inj [] bytes e) (parse_loop-done fuel _ rest)
parse_loop-vbs_bytes flags (suc fuel) _ _ bytes rest f (one_more vb v vbs ins h hs) more lt e =
    let (b, e1, g) = bind-some (vb_bytes vb) _ bytes e in
    let (bs, e2, g2) = bind-some (vbs_bytes vbs) _ bytes g in
    let size = vb_size vb + vbs_size vbs in
    let positive : (size == 0) ≡ false =
      ==_apart size 0 (omega (arith, vb_size-positive vb (vbs_size vbs))) in
    let later =
      parse_loop-vbs_bytes flags fuel vbs ins bs rest f hs (omega (arith, more)) (omega (arith, lt))
        e2 in
    let alloc = var_bind_alloc flags in
    let first = var_bind_alloc-vb_bytes flags vb v b (bs ++ rest) f h e1 in
    let left =
      round_payload b (bs ++ rest) (vb_size vb) (vbs_size vbs) (length-vb_bytes vb b e1) lt in
    subst
      (λ (z : List ℕ).
        parse_loop (suc fuel) alloc size (z ++ rest) ≡ ok (read_back vb v ∷ ins) rest)
      (some-inj (b ++ bs) bytes g2)
      (ap (parse_loop (suc fuel) alloc size) (append_assoc b bs rest)
        ∙ parse_loop-round alloc fuel size (vbs_size vbs) (b ++ (bs ++ rest)) (bs ++ rest) rest
            (read_back vb v) ins positive first left later)

-- A binding has at least 8 bytes.
pub length_le_vbs_size : (vbs : List XVarBind) → length vbs ≤ vbs_size vbs
unfolding vbs_size vb_size
length_le_vbs_size [] = omega arith
length_le_vbs_size (vb ∷ vbs) = omega (arith, length_le_vbs_size vbs)
