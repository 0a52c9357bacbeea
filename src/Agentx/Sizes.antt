-- ===== src/Agentx/Sizes.antt =====
-- The sizes that the builders of core/agentx_msg_out.c compute, against the bytes that they write.
use smartsnmp.Base.{Option, true}
use smartsnmp.Agentx.Pdu.{x_upper, upper_size, next_packet, instance_registration}
use smartsnmp.Base.{◌&&◌, ◌==◌}
use smartsnmp.Base.{leb→le}
use smartsnmp.Base.{◌==◌}
use smartsnmp.Base.{take}
use smartsnmp.Base.{
  ℕ, zero, suc, ◌+◌, ◌-◌, ◌*◌, ◌/◌, ◌%◌, ◌≡◌, ◌≤◌, ◌<◌, refl, sym, ap, subst, arith, inl, inr,
}
use smartsnmp.Base.{
  List, [], ◌∷◌, ◌++◌, none, some, length, length-append, drop, Bool-cases, leb, ltb,
}
use smartsnmp.Base.ListLaws.{length-take}
use smartsnmp.Base.Bytes.{u32_mod}
use smartsnmp.Snmp.MsgProc.Sizes.{bind-some, some-inj}
use smartsnmp.Agentx.{XPduHdr, XVarBind, uint_sizeof, zeros, words, x_pdu_hdr, x_objid, x_octstr}
use smartsnmp.Agentx.Pdu.{
  XKind, x_int, x_int64, x_octets, x_oid, x_none, x_kind, data_size, data_bytes, vb_size, vb_bytes,
  vbs_size, vbs_bytes, at_least, x_context, context_size, session_hdr, region_pdu,
  agentx_response_pdu,
}

-- The bytes are a header and as many more as it announces.
pub record IsPdu (bytes : List ℕ) : Type 0 where
  pub hdr : XPduHdr
  pub body : List ℕ
  pub split : bytes ≡ x_pdu_hdr hdr ++ body
  pub announced : hdr.payload_length ≡ length body

pub length-zeros : (n : ℕ) → length (zeros n) ≡ n
length-zeros zero = refl
length-zeros (suc n) = omega (arith, length-zeros n)

pub length-words : (xs : List ℕ) → length (words xs) ≡ length xs * 4
length-words [] = omega arith
length-words (x ∷ xs) = omega (arith, length-words xs)

length-drop : {A : Type 0} (n : ℕ) (xs : List A) → length (drop n xs) ≡ length xs - n
length-drop zero xs = omega arith
length-drop (suc n) [] = omega arith
length-drop (suc n) (x ∷ xs) = omega (arith, length-drop n xs)

pub length-x_objid : (oid : List ℕ) → length (x_objid oid) ≡ 4 + (length oid - 5) * 4
unfolding x_objid
length-x_objid oid = omega (arith, length-words (drop 5 oid), length-drop 5 oid)

pub length-x_octstr :
    (n : ℕ) (str : List ℕ) → length (x_octstr n str) ≡ 4 + uint_sizeof (length str)
unfolding x_octstr
length-x_octstr n str = omega (
  arith,
  length-append str (zeros (uint_sizeof (length str) - length str)),
  length-zeros (uint_sizeof (length str) - length str),
)

length-x_context : (context : List ℕ) → length (x_context context) ≡ context_size context
unfolding x_context context_size
length-x_context context = elim (Bool-cases (uint_sizeof (length context) == 0)) [
  | inl e ↦ rw (x_context, context_size, e) refl
  | inr e ↦ rw (x_context, context_size, e) (length-x_octstr (uint_sizeof (length context)) context)
]

length-at_least : (n : ℕ) (value bytes : List ℕ) → at_least n value ≡ some bytes → length bytes ≡ n
unfolding at_least
length-at_least n value bytes e = elim (Bool-cases (leb n (length value))) [
  | inl t ↦
      (let q : some (take n value) ≡ some bytes = rw t at e in
        subst (λ (z : List ℕ). length z ≡ n) (some-inj (take n value) bytes q)
          (length-take n value (leb→le n (length value) t)))
  | inr f ↦ (let q : none ≡ some bytes = rw f at e in cc)
]

length-data_bytes :
    (k : XKind) (value bytes : List ℕ)
    → data_bytes k value ≡ some bytes
    → length bytes ≡ data_size k (length value)
unfolding data_bytes data_size
length-data_bytes x_int value bytes e = length-at_least 4 value bytes e
length-data_bytes x_int64 value bytes e = length-at_least 8 value bytes e
length-data_bytes x_octets value bytes e =
    subst (λ (z : List ℕ). length z ≡ 4 + uint_sizeof (length value)) (some-inj _ bytes e)
      (length-x_octstr (length value) value)
length-data_bytes x_oid value bytes e =
    subst (λ (z : List ℕ). length z ≡ 4 + (length value - 20)) (some-inj _ bytes e)
      (let m = length value / 4 * 4 in
        let pad = length value - 20 - (m - 20) in
        omega (
          arith,
          length-append (drop 20 (take m value)) (zeros pad),
          length-drop 20 (take m value),
          length-take m value (omega arith),
          length-zeros pad,
        ))
length-data_bytes x_none value bytes e = ap (λ (z : List ℕ). length z) (sym (some-inj [] bytes e))

pub length-vb_bytes :
    (vb : XVarBind) (bytes : List ℕ) → vb_bytes vb ≡ some bytes → length bytes ≡ vb_size vb
unfolding vb_bytes vb_size
length-vb_bytes vb bytes e =
    let (data_part, e1, f) = bind-some (data_bytes (x_kind vb.val_type) vb.value) _ bytes e in
    subst (λ (z : List ℕ). length z ≡ vb_size vb) (some-inj _ bytes f)
      (omega (
        arith,
        length-append (x_objid vb.oid) data_part,
        length-x_objid vb.oid,
        length-data_bytes (x_kind vb.val_type) vb.value data_part e1,
      ))

pub length-vbs_bytes :
    (vbs : List XVarBind) (bytes : List ℕ)
    → vbs_bytes vbs ≡ some bytes
    → length bytes ≡ vbs_size vbs
unfolding vbs_bytes vbs_size
length-vbs_bytes [] bytes e = ap (λ (z : List ℕ). length z) (sym (some-inj [] bytes e))
length-vbs_bytes (vb ∷ vbs) bytes e =
    let (b, e1, f) = bind-some (vb_bytes vb) _ bytes e in
    let (bs, e2, g) = bind-some (vbs_bytes vbs) _ bytes f in
    subst (λ (z : List ℕ). length z ≡ vb_size vb + vbs_size vbs) (some-inj _ bytes g)
      (omega (arith, length-append b bs, length-vb_bytes vb b e1, length-vbs_bytes vbs bs e2))

-- If the bindings take less than 4 GB and each value has the bytes of its type, the response is sent with a header that
-- announces exactly the bytes behind it.
pub response-IsPdu :
    (ph : XPduHdr) (error index : ℕ) (vbs : List XVarBind) (bytes : List ℕ)
    → vbs_size vbs < 0xffff_ff00
    → agentx_response_pdu ph error index vbs ≡ some bytes
    → IsPdu bytes
unfolding agentx_response_pdu session_hdr
response-IsPdu ph error index vbs bytes lt e =
    let (b, e1, f) = bind-some (vbs_bytes vbs) _ bytes e in
    subst IsPdu (some-inj _ bytes f) record {
      hdr = session_hdr ph 18 ph.flags ((28 + vbs_size vbs) % u32_mod);
      body = _;
      split = refl;
      announced = omega (arith, length-vbs_bytes vbs b e1);
    }

guard_bounds :
    (n c : ℕ) → (ltb 4 n && leb (n + 5) 64 && leb c 40) ≡ true → (4 < n) × (n + 5 ≤ 64) × (c ≤ 40)
guard_bounds n c h = ground arith

length-x_upper :
    (range_subid upper_bound : ℕ)
    → (length (x_upper range_subid upper_bound) ≡ upper_size range_subid)
      × (upper_size range_subid ≤ 4)
unfolding x_upper upper_size
length-x_upper range_subid upper_bound = elim (Bool-cases (range_subid == 0)) [
  | inl e ↦ rw (x_upper, upper_size, e) (refl, omega arith)
  | inr e ↦ rw (x_upper, upper_size, e) (refl, omega arith)
]

context_size_le : (context : List ℕ) → length context ≤ 40 → context_size context ≤ 44
unfolding context_size
context_size_le context h = ground arith

-- A registration, or its removal: if the builder gives one, its header announces exactly the bytes behind it.
pub region-IsPdu :
    (type timeout : ℕ) (ph ph' : XPduHdr) (oid context : List ℕ)
    (priority range_subid upper_bound : ℕ) (bytes : List ℕ)
    → region_pdu type timeout ph oid context priority range_subid upper_bound ≡ some (ph', bytes)
    → IsPdu bytes
unfolding region_pdu session_hdr
region-IsPdu type timeout ph ph' oid context priority range_subid upper_bound bytes e =
    let guard = ltb 4 (length oid) && leb (length oid + 5) 64 && leb (length context) 40 in
    elim (Bool-cases guard) [
      | inr f ↦
          (let q : (◌≡◌ {A = Option (XPduHdr × List ℕ)} none (some (ph', bytes))) = rw f at e in cc)
      | inl t ↦
          (let (n5, n64, c40) = guard_bounds (length oid) (length context) t in
            let q = some-inj _ (ph', bytes) (rw t at e) in
            subst IsPdu (ap (λ (x : XPduHdr × List ℕ). x.1) q) record {
              hdr =
                  session_hdr (next_packet ph) type (instance_registration (next_packet ph).flags) (
                    20
                    + context_size context
                    + (4 + 4 + (length oid - 5) * 4)
                    + upper_size range_subid);
              body = _;
              split = refl;
              announced = omega (
                arith,
                length-x_context context,
                context_size_le context c40,
                length-x_upper range_subid upper_bound,
                length-x_objid oid,
                length-append (x_context context) (
                    (timeout % 256 ∷ priority % 256 ∷ range_subid % 256 ∷ 0 ∷ [])
                    ++ (x_objid oid ++ x_upper range_subid upper_bound)),
                length-append (x_objid oid) (x_upper range_subid upper_bound),
              );
            })
    ]
