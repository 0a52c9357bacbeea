-- ===== src/Snmp/MsgProc/Sizes.antt =====
-- What a round of `snmp_get` or `snmp_set` of core/snmp_msg_proc.c adds to the response.
use mathlib.Core.List.{map-append}
use mathlib.Core.List.{map, append-nil, append_assoc}
use smartsnmp.Snmp.RoundTrip.VarBinds.{list_len}
use smartsnmp.Base.{
  if◌then◌else◌, ◌⊎◌, subst, ℕ, zero, suc, ◌+◌, ◌%◌, ◌≡◌, ◌∙◌, refl, sym, ap, List, [], ◌∷◌, ◌++◌,
  Option, none, some, Bool, true, false, length, arith, inl, inr, All,
}
use smartsnmp.Base.Bytes.{u32_mod}
use smartsnmp.Ber.ObjectId.{ber_oid_enc_try}
use smartsnmp.Snmp.MsgProc.Respond.{get_value}
use smartsnmp.Mib.Search.{SearchRes, mib_tree_search}
use smartsnmp.View.{View}
use smartsnmp.Snmp.Packet.{VarBind, Datagram}
use smartsnmp.Snmp.MsgOut.{VbOut, tlv_len}
use smartsnmp.Snmp.MsgProc.{gotcha, Agent, RetOid, gotcha, search_views, mib_get, mib_set}
use smartsnmp.Snmp.MsgProc.Respond.{
  read_value, set_status, set_value, Answer, mark_error, add_vb_out, get_round, set_round,
  reply_loop,
}

-- The lengths of a binding are those of its parts.
abbrev pub IsSized : VbOut → Type 0
IsSized vb =
    (n : ℕ) × (ber_oid_enc_try vb.oid ≡ some n)
    × (vb.vb_len ≡ (tlv_len n + tlv_len (length vb.value)) % u32_mod)

-- A round adds one binding for the identifier `id`, and marks its error.
pub record Step (id : List ℕ) (r r' : Answer) : Type 0 where
  pub added : VbOut
  pub same_oid : added.oid ≡ id
  pub sized : IsSized added
  pub list : r'.vb_out_list ≡ r.vb_out_list ++ (added ∷ [])
  pub list_len : r'.vb_list_len ≡ (r.vb_list_len + tlv_len added.vb_len) % u32_mod
  pub cnt : r'.vb_in_cnt ≡ (r.vb_in_cnt + 1) % u32_mod
  pub stat : r'.err_stat ≡ (mark_error r'.ret (record r { vb_in_cnt = r'.vb_in_cnt })).err_stat
  pub idx : r'.err_idx ≡ (mark_error r'.ret (record r { vb_in_cnt = r'.vb_in_cnt })).err_idx

module _ {A B : Type 0} where
  -- The two steps of a chain that gave a result.
  pub bind-some :
      (x : Option A) (f : A → Option B) (b : B)
      → elim x [ none ↦ none | some a ↦ f a ] ≡ some b
      → (a : A) × (x ≡ some a) × (f a ≡ some b)
  bind-some none f b e = cc
  bind-some (some a) f b e = (a, refl, e)

  -- The branch that was taken.
  elim-none :
      (x : Option A) (a : B) (f : A → B) (b : B)
      → elim x [ none ↦ a | some w ↦ f w ] ≡ b
      → (a ≡ b) ⊎ ((w : A) × (f w ≡ b))
  elim-none none a f b e = inl e
  elim-none (some w) a f b e = inr (w, e)

elim-if : {A : Type 0} (c : Bool) (x y z : A) → (if c then x else y) ≡ z → (x ≡ z) ⊎ (y ≡ z)
elim-if true x y z e = inl e
elim-if false x y z e = inr e

pub some-inj : {A : Type 0} (a b : A) → some a ≡ some b → a ≡ b
some-inj a b e = cc

pub add_vb_out-Step :
    (id : List ℕ) (ret : RetOid) (t : ℕ) (v : List ℕ) (r r' : Answer)
    → ret.id ≡ id
    → add_vb_out ret t v (record r { vb_in_cnt = (r.vb_in_cnt + 1) % u32_mod }) ≡ some r'
    → Step id r r'
unfolding add_vb_out
add_vb_out-Step id ret t v r r' i e =
    let (n, s, f) = bind-some (ber_oid_enc_try ret.id) _ r' e in
    subst (Step id r) (some-inj _ r' f) record {
      added = record {
        oid = ret.id;
        vb_len = (tlv_len n + tlv_len (length v)) % u32_mod;
        value_type = t;
        value = v;
      };
      same_oid = i;
      sized = (n, s, refl);
      list = refl;
      list_len = refl;
      cnt = refl;
      stat = refl;
      idx = refl;
    }

search_views-id :
    (agent : Agent) (request : ℕ) (oid : List ℕ) (fuel : ℕ) (next : Option View → Option View)
    (v : Option View) (ret ret' : RetOid)
    → search_views agent request oid fuel next v ret ≡ some ret'
    → ret'.id ≡ oid
unfolding search_views
search_views-id agent request oid zero next v ret ret' e = cc
search_views-id agent request oid (suc fuel) next v ret ret' e =
    let found : SearchRes → RetOid = λ r. record { id = oid; err_stat = r.err_stat; var = r.var } in
    let go : View → SearchRes → Option RetOid = λ w r.
      if gotcha oid w r
      then some (found r)
      else search_views agent request oid fuel next (some w) (found r) in
    let search : View → Option SearchRes =
      λ w. mib_tree_search agent.lua_pcall request ret.var w.oid oid agent.tree in
    elim (elim-none (next v) _ (λ w. elim (search w) [ none ↦ none | some r ↦ go w r ]) (some ret')
      e) [
        | inl f ↦ sym (ap (λ (t : RetOid). t.id) (some-inj _ ret' f))
        | inr (w, f) ↦
            (let (r, s, g) = bind-some (search w) (go w) ret' f in
              elim (elim-if (gotcha oid w r) (some (found r))
                (search_views agent request oid fuel next (some w) (found r)) (some ret') g) [
                  | inl here ↦ sym (ap (λ (t : RetOid). t.id) (some-inj (found r) ret' here))
                  | inr rest ↦
                      search_views-id agent request oid fuel next (some w) (found r) ret' rest
                ])
      ]

set_status-id : (ret : RetOid) → (set_status ret).id ≡ ret.id
unfolding set_status
set_status-id ret = ground arith

pub get_round-Step :
    (agent : Agent) (sdg : Datagram) (vb : VarBind) (r r' : Answer)
    → get_round agent sdg vb r ≡ some r'
    → Step vb.oid r r'
unfolding get_round mib_get
get_round-Step agent sdg vb r r' e =
    let (ret0, e0, f0) = bind-some (read_value vb r.ret) _ r' e in
    let (ret, e1, f1) = bind-some (mib_get agent sdg vb ret0) _ r' f0 in
    let (value, e2, f2) = bind-some (get_value ret.var.tag ret.var.value) _ r' f1 in
    add_vb_out-Step vb.oid ret ret.var.tag value r r'
      (search_views-id agent 0xa0 vb.oid _ _ none _ ret e1) f2

pub set_round-Step :
    (agent : Agent) (sdg : Datagram) (vb : VarBind) (r r' : Answer)
    → set_round agent sdg vb r ≡ some r'
    → Step vb.oid r r'
unfolding set_round mib_set
set_round-Step agent sdg vb r r' e =
    let (ret0, e0, f0) = bind-some (read_value vb r.ret) _ r' e in
    let (ret, e1, f1) = bind-some (mib_set agent sdg vb ret0) _ r' f0 in
    let (value, e2, f2) = bind-some (set_value ret.var.tag ret.var.value) _ r' f1 in
    add_vb_out-Step vb.oid (set_status ret) vb.value_type value r r'
      (set_status-id ret ∙ search_views-id agent 0xa3 vb.oid _ _ none _ ret e1) f2

-- The bindings so far are those of the identifiers, with their lengths.
pub record Answers (ids : List (List ℕ)) (r : Answer) : Type 0 where
  pub oids : map (λ (vb : VbOut). vb.oid) r.vb_out_list ≡ ids
  pub sized : All IsSized r.vb_out_list
  pub len : r.vb_list_len ≡ list_len r.vb_out_list % u32_mod

All-append :
    {A : Type 0} (P : A → Type 0) (xs : List A) (y : A) → All P xs → P y → All P (xs ++ (y ∷ []))
All-append P [] y h p = (p, tt)
All-append P (x ∷ xs) y (h, hs) p = (h, All-append P xs y hs p)

list_len-append :
    (vbs : List VbOut) (vb : VbOut) → list_len (vbs ++ (vb ∷ [])) ≡ list_len vbs + tlv_len vb.vb_len
unfolding list_len
list_len-append [] vb = omega arith
list_len-append (v ∷ vbs) vb = omega (arith, list_len-append vbs vb)

Step-Answers :
    (ids : List (List ℕ)) (id : List ℕ) (r r' : Answer)
    → Step id r r'
    → Answers ids r
    → Answers (ids ++ (id ∷ [])) r'
Step-Answers ids id r r' s a = record {
  oids = rw (s.list) (map-append _ r.vb_out_list _ ∙ rw (a.oids, s.same_oid) refl);
  sized =
      subst (All IsSized) (sym s.list) (All-append IsSized r.vb_out_list s.added a.sized s.sized);
  len = rw s.list (omega (arith, s.list_len, a.len, list_len-append r.vb_out_list s.added));
}

-- Whatever is asked and replied, a loop whose rounds add one binding each answers each identifier of the
-- request, in order, with the lengths of the bindings and of their list.
pub reply_loop-Answers :
    (round : VarBind → Answer → Option Answer)
    → ((vb : VarBind) (r r' : Answer) → round vb r ≡ some r' → Step vb.oid r r')
    → (vbs : List VarBind) (ids : List (List ℕ)) (r r' : Answer) → reply_loop round vbs r ≡ some r'
    → Answers ids r
    → Answers (ids ++ map (λ (vb : VarBind). vb.oid) vbs) r'
unfolding reply_loop
reply_loop-Answers round step [] ids r r' e a =
    subst (λ k. Answers k r') (sym (append-nil ids)) (subst (Answers ids) (some-inj r r' e) a)
reply_loop-Answers round step (vb ∷ vbs) ids r r' e a =
    let (r1, e1, f) = bind-some (round vb r) _ r' e in
    subst (λ k. Answers k r') (append_assoc ids (vb.oid ∷ []) (map (λ (vb : VarBind). vb.oid) vbs))
      (reply_loop-Answers round step vbs (ids ++ (vb.oid ∷ [])) r1 r' f
        (Step-Answers ids vb.oid r r1 (step vb r r1 e1) a))
